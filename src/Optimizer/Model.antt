-- ===== src/Optimizer/Model.antt =====
-- backend/app/optimizer/solver.py, `solve`: the loops that post the possession, no-overlap,
-- dependency and mutual-exclusion constraints, and the whole model.
use pashupatastra_sih.Prelude.{
  ℕ, suc, ℤ, pos, ◌+ℤ◌, max_ℤ, min_ℤ, leb_ℤ, String, Bool, Option, none, some, List, [], ◌∷◌, ◌++◌,
  map, ◌==◌, not, if◌then◌else◌, keep, flat_map,
}
use pashupatastra_sih.Result.{Result, ok, ◌>>=◌, collect}
use pashupatastra_sih.Contracts.{BlockCandidate, PossessionWindow, OptimizationRequest}
use pashupatastra_sih.Python.{Builtins}
use pashupatastra_sih.Optimizer.Cp.{
  Var, presence, start, end_of, buffered_end, selection, Interval, Constraint, domain, boolean,
  eq_const, eq_offset, ge_const_if, le_const_if, ge_var_if, le_var, sum_eq, no_overlap, CpModel,
}
use pashupatastra_sih.Optimizer.Solver.{
  Entry, entries, ResourceKey, resource_key, resource_key_eq, possession_window_covers_block,
  objective_score, horizon_of, member, window_infeasible, possession_control_active, by_id, resolve,
  variable_constraints, pin_constraints,
}
use pashupatastra_sih.Optimizer.Groups.{group_from}

-- A matching window with its index.
abbrev pub IndexedWindow : Type 0
IndexedWindow = ℕ × PossessionWindow

unfoldable pub indexed_from : ℕ → List PossessionWindow → List IndexedWindow
indexed_from n [] = []
indexed_from n (w ∷ ws) = (n, w) ∷ indexed_from (suc n) ws

abbrev pub window_start : PossessionWindow → ℤ
window_start w = max_ℤ (pos 0) w.start_minute

abbrev pub window_end : ℤ → PossessionWindow → ℤ
window_end horizon w = min_ℤ horizon w.end_minute

-- "Skip impossible/empty windows."
abbrev pub is_usable : ℤ → IndexedWindow → Bool
is_usable horizon (k, w) = not (leb_ℤ (window_end horizon w) (window_start w))

abbrev pub matching_windows :
    {F : Type 0} → OptimizationRequest F → BlockCandidate F → List PossessionWindow
matching_windows r b = keep (λ w. possession_window_covers_block w b) r.possession_windows

-- Lines 356-386: the constraints of one selection variable. `p` is the position of the variables.
unfoldable pub selection_constraints : ℤ → ℕ → ℕ → IndexedWindow → List Constraint
selection_constraints horizon n p (k, w) =
    boolean (selection n k)
    ∷ ge_const_if (start p) (window_start w) (selection n k)
    ∷ le_const_if (end_of p) (window_end horizon w) (selection n k)
    ∷ le_var (selection n k) (presence p)
    ∷ []

-- Lines 388-397.
unfoldable pub eligible_constraints : ℤ → ℕ → ℕ → List IndexedWindow → List Constraint
eligible_constraints horizon n p [] = eq_const (presence p) (pos 0) ∷ []
eligible_constraints horizon n p (w ∷ ws) =
    sum_eq (map (λ u. selection n u.0) (w ∷ ws)) (presence p)
    ∷ flat_map (selection_constraints horizon n p) (w ∷ ws)

-- Lines 334-397, for the windows that match.
unfoldable pub window_constraints :
    {F : Type 0} → OptimizationRequest F → ℕ → ℕ → List PossessionWindow → List Constraint
window_constraints r n p [] =
    if possession_control_active r then eq_const (presence p) (pos 0) ∷ [] else []
window_constraints r n p (w ∷ ws) =
    eligible_constraints (horizon_of r) n p
      (keep (is_usable (horizon_of r)) (indexed_from 0 (w ∷ ws)))

-- Lines 324-397.
unfoldable pub possession_constraints :
    {F : Type 0} → OptimizationRequest F → Entry F → List Constraint
possession_constraints r (n, b) =
    if member b.block_id (window_infeasible r)
    then []
    else window_constraints r n (resolve (entries r.candidates) (n, b)).0 (matching_windows r b)

-- `headway = max(0, int(request.min_headway_minutes))`
abbrev pub headway_of : {F : Type 0} → OptimizationRequest F → ℤ
headway_of r = max_ℤ (pos 0) r.min_headway_minutes

abbrev pub buffered_size : {F : Type 0} → OptimizationRequest F → BlockCandidate F → ℤ
buffered_size r b = b.duration_minutes +ℤ headway_of r

-- Lines 427-443: the buffered end of one member of a resource group.
unfoldable pub buffer_constraints : {F : Type 0} → OptimizationRequest F → Entry F → List Constraint
buffer_constraints r e =
    let f = resolve (entries r.candidates) e in
    if member e.1.block_id (window_infeasible r)
    then []
    else domain (buffered_end e.0) (pos 0) (horizon_of r +ℤ buffered_size r f.1)
      ∷ eq_offset (buffered_end e.0) (start f.0) (buffered_size r f.1)
      ∷ []

-- Lines 445-453.
abbrev pub buffered_interval : {F : Type 0} → OptimizationRequest F → Entry F → Interval
buffered_interval r e =
    let f = resolve (entries r.candidates) e in
    record {
      start_var = start f.0;
      size = buffered_size r f.1;
      end_var = buffered_end e.0;
      presence_var = presence f.0;
    }

unfoldable pub buffered_intervals : {F : Type 0} → OptimizationRequest F → Entry F → List Interval
buffered_intervals r e =
    if member e.1.block_id (window_infeasible r) then [] else buffered_interval r e ∷ []

-- Lines 415-455, for one group.
unfoldable pub resource_constraints :
    {F : Type 0} → OptimizationRequest F → ResourceKey × List (Entry F) → List Constraint
resource_constraints r (k, es) =
    no_overlap (flat_map (buffered_intervals r) es) ∷ flat_map (buffer_constraints r) es

-- `by_resource`
unfoldable pub by_resource : {F : Type 0} → List (Entry F) → List (ResourceKey × List (Entry F))
by_resource es = group_from resource_key_eq (λ e. some (resource_key e.1)) [] es

-- Lines 461-479: the constraints of one dependency of the block at position `p`.
unfoldable pub dependency_constraint :
    {F : Type 0} → OptimizationRequest F → ℕ → String → List Constraint
dependency_constraint r p dep_id = elim (by_id dep_id (entries r.candidates)) [
  | none ↦ []
  | some d ↦ le_var (presence p) (presence d.0) ∷ ge_var_if (start p) (end_of d.0) (presence p) ∷ []
]

unfoldable pub dependency_constraints :
    {F : Type 0} → OptimizationRequest F → Entry F → List Constraint
dependency_constraints r e =
    flat_map (dependency_constraint r (resolve (entries r.candidates) e).0) e.1.dependencies

-- `if group:`, the group of a block unless it is None or empty.
abbrev pub mutex_group : {F : Type 0} → Entry F → Option String
mutex_group e = elim e.1.mutual_exclusion_group [
  | none ↦ none
  | some g ↦ if g == "" then none else some g
]

-- Lines 502-509.
abbrev pub mutex_interval : {F : Type 0} → OptimizationRequest F → Entry F → Interval
mutex_interval r e =
    let f = resolve (entries r.candidates) e in
    record {
      start_var = start f.0;
      size = f.1.duration_minutes;
      end_var = end_of f.0;
      presence_var = presence f.0;
    }

-- Lines 496-512, for one group.
unfoldable pub mutex_constraints :
    {F : Type 0} → OptimizationRequest F → String × List (Entry F) → List Constraint
mutex_constraints r (g, es) = no_overlap (flat_map (λ e. mutex_interval r e ∷ []) es) ∷ []

-- `by_mutex_group`
unfoldable pub by_mutex_group : {F : Type 0} → List (Entry F) → List (String × List (Entry F))
by_mutex_group es = group_from ◌==◌ mutex_group [] es

-- Lines 522-533.
unfoldable pub objective_terms : {F : Type 0} → Builtins F → OptimizationRequest F → List (ℤ × Var)
objective_terms py r =
    map
      (λ e.
        (py.round_scaled (objective_score py e.1), presence (resolve (entries r.candidates) e).0))
      (entries r.candidates)

-- Everything that `solve` posts before it calls the solver, or the error that `int(...)` raises.
unfoldable pub build_model : {F : Type 0} → Builtins F → OptimizationRequest F → Result CpModel
build_model py r = do
  let es = entries r.candidates
  pins ← collect (pin_constraints py r) es
  ok (record {
    constraints =
        flat_map (variable_constraints (horizon_of r)) es
        ++ (pins
            ++ (flat_map (possession_constraints r) es
                ++ (flat_map (resource_constraints r) (by_resource es)
                    ++ (flat_map (dependency_constraints r) es
                        ++ flat_map (mutex_constraints r) (by_mutex_group es)))));
    objective = objective_terms py r;
  })
