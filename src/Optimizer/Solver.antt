-- ===== src/Optimizer/Solver.antt =====
-- backend/app/optimizer/solver.py: the constraints that `solve` posts, loop by loop. The dicts
-- `presence`, `start`, `end` and `by_id` are keyed by `block_id` and filled in one pass, so a
-- later candidate with the same id replaces an earlier one: all four are the lookup `by_id`.
use pashupatastra_sih.Prelude.{
  ℕ, suc, ℤ, pos, ◌+ℤ◌, ◌-ℤ◌, max_ℤ, min_ℤ, ltb_ℤ, String, Bool, true, false, not, ◌&&◌, Option,
  none, some, is_some, List, [], ◌∷◌, map, ◌==◌, option_eq, if◌then◌else◌, keep, any,
}
use pashupatastra_sih.Prelude.Dict.{get}
use pashupatastra_sih.Result.{Result, ok, ◌>>=◌}
use pashupatastra_sih.Contracts.{BlockCandidate, PossessionWindow, OptimizationRequest}
use pashupatastra_sih.Python.{Builtins}
use pashupatastra_sih.Optimizer.Cp.{
  presence, start, end_of, Constraint, domain, boolean, eq_const, eq_offset,
}

-- A candidate with its position in `blocks`.
abbrev pub Entry : Type 0 → Type 0
Entry F = ℕ × BlockCandidate F

unfoldable pub entries_from : {F : Type 0} → ℕ → List (BlockCandidate F) → List (Entry F)
entries_from n [] = []
entries_from n (b ∷ bs) = (n, b) ∷ entries_from (suc n) bs

abbrev pub entries : {F : Type 0} → List (BlockCandidate F) → List (Entry F)
entries bs = entries_from 0 bs

abbrev pub ResourceKey : Type 0
ResourceKey = String × Option String

abbrev pub resource_key : {F : Type 0} → BlockCandidate F → ResourceKey
resource_key b = (b.track_id, b.section_id)

abbrev pub resource_key_eq : ResourceKey → ResourceKey → Bool
resource_key_eq (s, x) (t, y) = s == t && option_eq x y

-- `_possession_window_covers_block`
unfoldable pub possession_window_covers_block :
    {F : Type 0} → PossessionWindow → BlockCandidate F → Bool
possession_window_covers_block w b =
    if not (w.track_id == b.track_id)
    then false
    else (if not (is_some b.section_id) then true else option_eq w.section_id b.section_id)

-- `_objective_score`
abbrev pub objective_score : {F : Type 0} → Builtins F → BlockCandidate F → F
objective_score py b = py.add b.risk_score b.priority_score

pub record Clamped : Type 0 where
  pub earliest : ℤ
  pub latest_end : ℤ
  pub latest_start : ℤ

-- `_clamp_window`
unfoldable pub clamp_window : {F : Type 0} → BlockCandidate F → ℤ → Clamped
clamp_window b horizon = record {
  earliest = max_ℤ (pos 0) b.earliest_start_minute;
  latest_end = min_ℤ horizon b.latest_end_minute;
  latest_start = min_ℤ horizon b.latest_end_minute -ℤ b.duration_minutes;
}

-- `horizon_minutes = max(0, int(request.horizon_minutes))`
abbrev pub horizon_of : {F : Type 0} → OptimizationRequest F → ℤ
horizon_of r = max_ℤ (pos 0) r.horizon_minutes

-- `latest_start < earliest`
unfoldable pub does_not_fit : {F : Type 0} → ℤ → BlockCandidate F → Bool
does_not_fit horizon b =
    ltb_ℤ (clamp_window b horizon).latest_start (clamp_window b horizon).earliest

abbrev pub ids : {F : Type 0} → List (BlockCandidate F) → List String
ids bs = map (λ b. b.block_id) bs

-- `x in xs`
abbrev pub member : String → List String → Bool
member x xs = any (λ y. y == x) xs

-- The set `window_infeasible`.
abbrev pub window_infeasible : {F : Type 0} → OptimizationRequest F → List String
window_infeasible r = ids (keep (does_not_fit (horizon_of r)) r.candidates)

-- `possession_control_active = bool(request.possession_windows)`
abbrev pub possession_control_active : {F : Type 0} → OptimizationRequest F → Bool
possession_control_active r = any (λ w. true) r.possession_windows

-- No window matches the block.
abbrev pub uncovered : {F : Type 0} → OptimizationRequest F → BlockCandidate F → Bool
uncovered r b = not (any (λ w. possession_window_covers_block w b) r.possession_windows)

-- The set `possession_uncovered`.
abbrev pub possession_uncovered : {F : Type 0} → OptimizationRequest F → List String
possession_uncovered r =
    if possession_control_active r then ids (keep (uncovered r) r.candidates) else []

-- `by_id.get(block_id)`, with the position whose variables the other dicts hold.
unfoldable pub by_id : {F : Type 0} → String → List (Entry F) → Option (Entry F)
by_id k [] = none
by_id k ((n, b) ∷ es) = elim (by_id k es) [
  | some e ↦ some e
  | none ↦ if b.block_id == k then some (n, b) else none
]

-- `by_id[block_id]` for the id of a candidate, which is always there.
abbrev pub resolve : {F : Type 0} → List (Entry F) → Entry F → Entry F
resolve es e = elim (by_id e.1.block_id es) [ some f ↦ f | none ↦ e ]

-- `committed_by_id.get(block_id)`: a dict comprehension keeps the last of equal keys.
unfoldable pub committed_by_id :
    {F : Type 0} → String → List (BlockCandidate F) → Option (BlockCandidate F)
committed_by_id k [] = none
committed_by_id k (c ∷ cs) = elim (committed_by_id k cs) [
  | some d ↦ some d
  | none ↦ if c.block_id == k then some c else none
]

-- `int(metadata[key])` if the key is there, else the default.
unfoldable pub metadata_minute :
    {F : Type 0} → Builtins F → String → BlockCandidate F → ℤ → Result ℤ
metadata_minute py key c default = elim (get key c.metadata) [
  | none ↦ ok default
  | some v ↦ py.int_of v
]

-- The placement that a committed block is pinned to.
unfoldable pub committed_placement : {F : Type 0} → Builtins F → BlockCandidate F → Result (ℤ × ℤ)
committed_placement py c = do
  s ← metadata_minute py "committed_start_minute" c c.earliest_start_minute
  e ← metadata_minute py "committed_end_minute" c (s +ℤ c.duration_minutes)
  ok (s, e)

-- Lines 225-271: the variables of one candidate.
unfoldable pub variable_constraints : {F : Type 0} → ℤ → Entry F → List Constraint
variable_constraints horizon (n, b) =
    let w = clamp_window b horizon in
    boolean (presence n)
    ∷ (if does_not_fit horizon b
        then eq_const (presence n) (pos 0)
          ∷ domain (start n) w.earliest w.earliest
          ∷ domain (end_of n) w.earliest w.earliest
          ∷ []
        else domain (start n) w.earliest w.latest_start
          ∷ domain (end_of n) w.earliest w.latest_end
          ∷ eq_offset (end_of n) (start n) b.duration_minutes
          ∷ [])

-- The committed block that a candidate is pinned by: none where no window covers the candidate.
abbrev pub pinned_by :
    {F : Type 0} → OptimizationRequest F → BlockCandidate F → Option (BlockCandidate F)
pinned_by r b =
    if member b.block_id (possession_uncovered r)
    then none
    else committed_by_id b.block_id r.existing_committed_blocks

-- Lines 273-314.
unfoldable pub pin_constraints :
    {F : Type 0} → Builtins F → OptimizationRequest F → Entry F → Result (List Constraint)
pin_constraints py r (n, b) = elim (pinned_by r b) [
  | none ↦ ok []
  | some c ↦ do
    p ← committed_placement py c
    ok (eq_const (presence n) (pos 1) ∷ eq_const (start n) p.0 ∷ eq_const (end_of n) p.1 ∷ [])
]
