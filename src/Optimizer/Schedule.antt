-- ===== src/Optimizer/Schedule.antt =====
-- The schedule returned by solver.py's `solve`, against the time windows of its candidates.
use pashupatastra_sih.Prelude.{
  ℤ, pos, eqb_ℤ, ◌≡◌, refl, sym, ap, ◌∙◌, subst, ◌⊎◌, inl, inr, true, not, List, [], ◌∷◌, map,
  All-flat_map, In, here, there, keep-In, Bool-cases,
}
use pashupatastra_sih.Result.{ok, >>=-eq-ok, ok_injective}
use pashupatastra_sih.Contracts.{
  BlockCandidate, OptimizationRequest, OptimizationResult, ScheduledBlock,
}
use pashupatastra_sih.Python.{Builtins, SetOrder}
use pashupatastra_sih.Optimizer.Cp.{
  presence, start, end_of, Assignment, Holds, CpSolver, IsSound, has_solution,
}
use pashupatastra_sih.Optimizer.Solver.{Entry, entries, horizon_of, variable_constraints}
use pashupatastra_sih.Optimizer.Model.{build_model}
use pashupatastra_sih.Optimizer.Solve.{
  solve, result_of, solved_result, unsolved_result, scheduled_block, present_entries, is_present,
}
use pashupatastra_sih.Optimizer.Unique.{UniqueIds, resolve_self, entries-In}
use pashupatastra_sih.Optimizer.Feasible.{
  Feasible, build_model-Feasible, InWindow, variable-presence, variable-InWindow,
}

-- A schedule that comes from an assignment which satisfies the model.
pub record Solution {F : Type 0} (py : Builtins F) (r : OptimizationRequest F)
    (ss : List (ScheduledBlock F)) : Type 0 where
  pub value : Assignment
  pub meets : Feasible py r value
  pub schedule : ss ≡ map (scheduled_block value r) (present_entries value r)

-- A schedule that is not empty is one.
pub solve-Solution :
    {F : Type 0} (py : Builtins F) (order : SetOrder) (r : OptimizationRequest F) (cp : CpSolver)
    {res : OptimizationResult F} {s : ScheduledBlock F}
    → IsSound cp
    → solve py order r cp ≡ ok res
    → In s res.scheduled_blocks
    → Solution py r res.scheduled_blocks
unfolding solve result_of solved_result unsolved_result
solve-Solution {F} py order r cp {res} {s} sound e i =
    let (m, em, e1) = >>=-eq-ok (build_model py r) _ e in
    elim (Bool-cases (has_solution (cp m).status)) [
      | inl t ↦ record {
        value = (cp m).value;
        meets = build_model-Feasible py r (cp m).value em (sound.satisfies m t);
        schedule = sym (ap (λ q. q.scheduled_blocks) (ok_injective (rw (t, result_of) at e1)));
      }
      | inr f ↦
          elim (subst (In s)
            (sym (ap (λ q. q.scheduled_blocks) (ok_injective (rw (f, result_of) at e1)))) i) [ ]
    ]

-- A scheduled block, its candidate and the values of its variables.
pub record Placed {F : Type 0} (r : OptimizationRequest F) (v : Assignment) (s : ScheduledBlock F)
    : Type 0 where
  pub entry : Entry F
  pub stands : In entry (entries r.candidates)
  pub present : v (presence entry.0) ≡ pos 1
  pub block : s ≡ scheduled_block v r entry
  pub starts : s.start_minute ≡ v (start entry.0)
  pub ends : s.end_minute ≡ v (end_of entry.0)

present-one : (n : ℤ) → not (eqb_ℤ n (pos 0)) ≡ true → (n ≡ pos 0) ⊎ (n ≡ pos 1) → n ≡ pos 1
unfolding eqb_ℤ
present-one n h (inl z) = cc (rw z at h)
present-one n h (inr o) = o

pub map-In :
    {A B : Type 0} (f : A → B) (xs : List A) {b : B}
    → In b (map f xs)
    → (a : A) × In a xs × (b ≡ f a)
map-In f [] i = elim i [ ]
map-In f (x ∷ xs) (here e) = (x, here refl, e)
map-In f (x ∷ xs) (there i) = let (a, j, e) = map-In f xs i in (a, there j, e)

pub In-map : {A B : Type 0} (f : A → B) (xs : List A) {a : A} → In a xs → In (f a) (map f xs)
In-map f [] i = elim i [ ]
In-map f (x ∷ xs) (here e) = here (ap f e)
In-map f (x ∷ xs) (there i) = there (In-map f xs i)

-- Each scheduled block stands for a candidate whose presence variable is 1.
pub Solution-Placed :
    {F : Type 0} (py : Builtins F) (r : OptimizationRequest F) {ss : List (ScheduledBlock F)}
    (sol : Solution py r ss) {s : ScheduledBlock F}
    → UniqueIds r.candidates
    → In s ss
    → Placed r sol.value s
unfolding present_entries scheduled_block
Solution-Placed py r sol {s} u i =
    let v = sol.value in
    let (e, j, q) =
      map-In (scheduled_block v r) (present_entries v r) (subst (In s) sol.schedule i) in
    let (k, p) = keep-In (is_present v r) (entries r.candidates) j in
    let self = resolve_self r.candidates u k in
    let vars =
      All-flat_map (Holds v) (variable_constraints (horizon_of r)) (entries r.candidates)
        sol.meets.variables k in
    record {
      entry = e;
      stands = k;
      present =
          present-one (v (presence e.0))
            (subst (λ f. not (eqb_ℤ (v (presence f.0)) (pos 0)) ≡ true) self p)
            (variable-presence (horizon_of r) v e vars);
      block = q;
      starts = ap (λ t. t.start_minute) q ∙ ap (λ f. v (start f.0)) self;
      ends = ap (λ t. t.end_minute) q ∙ ap (λ f. v (end_of f.0)) self;
    }

pub Placed-InWindow :
    {F : Type 0} (py : Builtins F) (r : OptimizationRequest F) {ss : List (ScheduledBlock F)}
    (sol : Solution py r ss) {s : ScheduledBlock F} (p : Placed r sol.value s)
    → InWindow (horizon_of r) p.entry.1 s.start_minute s.end_minute
Placed-InWindow py r sol {s} p =
    let v = sol.value in
    let vars =
      All-flat_map (Holds v) (variable_constraints (horizon_of r)) (entries r.candidates)
        sol.meets.variables p.stands in
    subst (λ t. InWindow (horizon_of r) p.entry.1 t s.end_minute) (sym p.starts)
      (subst (λ t. InWindow (horizon_of r) p.entry.1 (v (start p.entry.0)) t) (sym p.ends)
        (variable-InWindow (horizon_of r) v p.entry vars p.present))

-- Every block that `solve` schedules is a candidate placed inside its own time window: it starts
-- at or after minute 0 and its earliest start, lasts exactly its duration, and ends by its latest
-- end and by the horizon. CP-SAT is assumed to be sound, and the candidates' ids to be distinct.
pub scheduled-InWindow :
    {F : Type 0} (py : Builtins F) (order : SetOrder) (r : OptimizationRequest F) (cp : CpSolver)
    {res : OptimizationResult F} {s : ScheduledBlock F}
    → IsSound cp
    → UniqueIds r.candidates
    → solve py order r cp ≡ ok res
    → In s res.scheduled_blocks
    → (b : BlockCandidate F) × In b r.candidates
      × (s.block_id ≡ b.block_id)
      × (s.track_id ≡ b.track_id)
      × InWindow (horizon_of r) b s.start_minute s.end_minute
unfolding scheduled_block
scheduled-InWindow py order r cp sound u e i =
    let sol = solve-Solution py order r cp sound e i in
    let p = Solution-Placed py r sol u i in
    (
      p.entry.1,
      entries-In 0 r.candidates p.stands,
      ap (λ t. t.block_id) p.block,
      ap (λ t. t.track_id) p.block,
      Placed-InWindow py r sol p,
    )
