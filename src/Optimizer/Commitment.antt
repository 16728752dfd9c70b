-- ===== src/Optimizer/Commitment.antt =====
-- Dependencies and committed blocks in a schedule returned by solver.py's `solve`.
use pashupatastra_sih.Prelude.{
  ℤ, pos, ◌≤ℤ◌, eqb_ℤ, ◌≡◌, refl, sym, ap, ◌∙◌, subst, ◌⊎◌, inl, inr, Bool, true, false, not,
  Option, some, List, All, All-flat_map, In, In-keep, arith, ◌||◌, is_some,
}
use pashupatastra_sih.Result.{ok, >>=-eq-ok, All-collect, ok_injective}
use pashupatastra_sih.Contracts.{
  BlockCandidate, OptimizationRequest, OptimizationResult, ScheduledBlock, SolverStatus, optimal,
  feasible, committed,
}
use pashupatastra_sih.Python.{Builtins, SetOrder}
use pashupatastra_sih.Optimizer.Cp.{
  presence, start, end_of, Holds, CpSolver, CpOutcome, CpStatus, IsSound, has_solution,
}
use pashupatastra_sih.Optimizer.Solver.{
  Entry, entries, horizon_of, resolve, committed_by_id, committed_placement, pinned_by,
  possession_uncovered, member, variable_constraints, pin_constraints,
}
use pashupatastra_sih.Optimizer.Model.{build_model, dependency_constraints, dependency_constraint}
use pashupatastra_sih.Optimizer.Solve.{
  solve, result_of, solved_result, unsolved_result, scheduled_block, present_entries, is_present,
  status_of,
}
use pashupatastra_sih.Optimizer.Unique.{
  UniqueIds, resolve_self, entries-In, In-entries, by_id_self, eq_of_id,
}
use pashupatastra_sih.Optimizer.Feasible.{build_model-Feasible, variable-presence, pin-placed}
use pashupatastra_sih.Optimizer.Schedule.{Solution, solve-Solution, Solution-Placed, In-map}

-- A candidate whose presence variable is 1 is in the schedule.
pub Solution-scheduled :
    {F : Type 0} (py : Builtins F) (r : OptimizationRequest F) {ss : List (ScheduledBlock F)}
    (sol : Solution py r ss) {e : Entry F}
    → UniqueIds r.candidates
    → In e (entries r.candidates)
    → sol.value (presence e.0) ≡ pos 1
    → In (scheduled_block sol.value r e) ss
unfolding present_entries eqb_ℤ
Solution-scheduled py r sol {e} u i one =
    let v = sol.value in
    subst (In (scheduled_block v r e)) (sym sol.schedule) (
      In-map (scheduled_block v r) (present_entries v r) (
        In-keep (is_present v r) (entries r.candidates) i (
          subst (λ (f : Entry _). not (eqb_ℤ (v (presence f.0)) (pos 0)) ≡ true)
            (sym (resolve_self r.candidates u i))
            (subst (λ n. not (eqb_ℤ n (pos 0)) ≡ true) (sym one) refl))))

-- If `solve` schedules a block, it also schedules every dependency of that block that is itself a
-- candidate, and the dependency ends by the block's start. CP-SAT is assumed to be sound and the
-- ids distinct.
pub scheduled_dependency :
    {F : Type 0} (py : Builtins F) (order : SetOrder) (r : OptimizationRequest F) (cp : CpSolver)
    {res : OptimizationResult F} {s : ScheduledBlock F} {b c : BlockCandidate F}
    → IsSound cp
    → UniqueIds r.candidates
    → solve py order r cp ≡ ok res
    → In s res.scheduled_blocks
    → In b r.candidates
    → s.block_id ≡ b.block_id
    → In c r.candidates
    → In c.block_id b.dependencies
    → (t : ScheduledBlock F) × In t res.scheduled_blocks
      × (t.block_id ≡ c.block_id)
      × (t.end_minute ≤ℤ s.start_minute)
unfolding scheduled_block dependency_constraints dependency_constraint
scheduled_dependency {F} py order r cp {res} {s} {b} {c} sound u e i ib eb ic dep =
    let sol = solve-Solution py order r cp sound e i in
    let v = sol.value in
    let p = Solution-Placed py r sol u i in
    let same =
      eq_of_id r.candidates u ib (entries-In 0 r.candidates p.stands)
        (sym eb ∙ ap (λ x. x.block_id) p.block) in
    let (k, ik) = In-entries 0 r.candidates ic in
    let post =
      All-flat_map (Holds v) (dependency_constraints r) (entries r.candidates)
        sol.meets.dependencies p.stands in
    let one =
      All-flat_map (Holds v) (dependency_constraint r (resolve (entries r.candidates) p.entry).0)
        p.entry.1.dependencies post (subst (λ x. In c.block_id x.dependencies) same dep) in
    let own =
      subst (λ (f : Entry F). All (Holds v) (dependency_constraint r f.0 c.block_id))
        (resolve_self r.candidates u p.stands) one in
    let held = rw (by_id_self 0 r.candidates u ik, dependency_constraint) at own in
    let present = is_one (v (presence p.entry.0)) (v (presence k)) p.present held.0 (
      variable-presence (horizon_of r) v (k, c)
        (All-flat_map (Holds v) (variable_constraints (horizon_of r)) (entries r.candidates)
          sol.meets.variables ik)) in
    (
      scheduled_block v r (k, c),
      Solution-scheduled py r sol u ik present,
      refl,
      subst (λ (f : Entry F). v (end_of f.0) ≤ℤ s.start_minute)
          (sym (resolve_self r.candidates u ik))
          (subst (λ n. v (end_of k) ≤ℤ n) (sym p.starts) (held.1.0 p.present)),
    )
  where
    is_one : (m n : ℤ) → m ≡ pos 1 → m ≤ℤ n → (n ≡ pos 0) ⊎ (n ≡ pos 1) → n ≡ pos 1
    is_one m n em le (inl z) = absurd (clash (subst (λ k. k ≤ℤ n) em le) z)
      where
        clash : pos 1 ≤ℤ n → n ≡ pos 0 → ⊥
        clash h q = omega (arith, subst (λ k. pos 1 ≤ℤ k) q h)
    is_one m n em le (inr o) = o

-- A result has a solution exactly when its status is OPTIMAL or FEASIBLE.
abbrev pub IsSolved : SolverStatus → Type 0
IsSolved st = (st ≡ optimal) ⊎ (st ≡ feasible)

pub solved-has_solution : (c : CpStatus) → IsSolved (status_of c) → has_solution c ≡ true
solved-has_solution c h = ground arith

result_of-status :
    {F : Type 0} (py : Builtins F) (order : SetOrder) (r : OptimizationRequest F) (out : CpOutcome)
    → (result_of py order r out).status ≡ status_of out.status
unfolding result_of solved_result unsolved_result
result_of-status py order r out = ground arith

-- A result with a solution has a schedule that satisfies the model.
pub solved-Solution :
    {F : Type 0} (py : Builtins F) (order : SetOrder) (r : OptimizationRequest F) (cp : CpSolver)
    {res : OptimizationResult F}
    → IsSound cp
    → solve py order r cp ≡ ok res
    → IsSolved res.status
    → Solution py r res.scheduled_blocks
unfolding solve result_of solved_result unsolved_result
solved-Solution {F} py order r cp {res} sound e solved =
    let (m, em, e1) = >>=-eq-ok (build_model py r) _ e in
    let t = solved-has_solution (cp m).status (
      subst IsSolved
        (ap (λ q. q.status) (sym (ok_injective e1)) ∙ result_of-status py order r (cp m)) solved) in
    record {
      value = (cp m).value;
      meets = build_model-Feasible py r (cp m).value em (sound.satisfies m t);
      schedule = sym (ap (λ q. q.scheduled_blocks) (ok_injective (rw (t, result_of) at e1)));
    }

-- Whenever `solve` finds a solution, each candidate with a committed block is scheduled again at
-- the committed placement, marked as committed: the start and end that the committed block's
-- metadata names, else its earliest start and duration. This leaves out only the candidates
-- that possession control does not cover. CP-SAT is assumed to be sound and the ids distinct.
pub solve-keeps_committed :
    {F : Type 0} (py : Builtins F) (order : SetOrder) (r : OptimizationRequest F) (cp : CpSolver)
    {res : OptimizationResult F} {b c : BlockCandidate F}
    → IsSound cp
    → UniqueIds r.candidates
    → solve py order r cp ≡ ok res
    → IsSolved res.status
    → In b r.candidates
    → member b.block_id (possession_uncovered r) ≡ false
    → committed_by_id b.block_id r.existing_committed_blocks ≡ some c
    → (p : ℤ × ℤ) × (s : ScheduledBlock F) × (committed_placement py c ≡ ok p)
      × In s res.scheduled_blocks
      × (s.block_id ≡ b.block_id)
      × (s.start_minute ≡ p.0)
      × (s.end_minute ≡ p.1)
      × (s.is_committed ≡ true)
      × (s.status ≡ committed)
unfolding scheduled_block
solve-keeps_committed {F} py order r cp {res} {b} {c} sound u e solved ib covered prior =
    let sol = solved-Solution py order r cp sound e solved in
    let v = sol.value in
    let (k, ik) = In-entries 0 r.candidates ib in
    let (ys, ey, held) =
      All-collect (Holds v) (pin_constraints py r) (entries r.candidates) sol.meets.collected
        sol.meets.pinned ik in
    let pin : pinned_by r b ≡ some c = rw (pinned_by, covered) prior in
    let (p, ep, one, es, ee) = pin-placed py r v (k, b) pin ey held in
    let marked = is_marked b.is_committed prior in
    (
      p,
      scheduled_block v r (k, b),
      ep,
      Solution-scheduled py r sol u ik one,
      refl,
      ap (λ (f : Entry F). v (start f.0)) (resolve_self r.candidates u ik) ∙ es,
      ap (λ (f : Entry F). v (end_of f.0)) (resolve_self r.candidates u ik) ∙ ee,
      marked,
      rw marked refl,
    )
  where
    is_marked : (x : Bool) {o : Option (BlockCandidate F)} → o ≡ some c → (x || is_some o) ≡ true
    is_marked x h = ground arith
