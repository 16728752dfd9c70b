-- ===== src/Optimizer/Possession.antt =====
-- Possession control in solver.py's `solve`, from the posted constraints to the schedule.
use pashupatastra_sih.Prelude.{
  ℕ, suc, ℤ, pos, ◌≤ℤ◌, ◌≡◌, refl, sym, ap, ◌∙◌, subst, ◌≢◌, ◌⊎◌, inl, inr, true, List, [], ◌∷◌,
  map, keep, any, All, All-flat_map, In, here, there, keep-In, arith, +ℤ-zero_left, le-max_right,
  min-le_right,
}
use pashupatastra_sih.Result.{ok}
use pashupatastra_sih.Contracts.{
  BlockCandidate, PossessionWindow, OptimizationRequest, OptimizationResult, ScheduledBlock,
}
use pashupatastra_sih.Python.{Builtins, SetOrder}
use pashupatastra_sih.Optimizer.Cp.{
  presence, start, end_of, selection, Var, Assignment, Holds, CpSolver, IsSound, sum_vars,
}
use pashupatastra_sih.Optimizer.Solver.{
  Entry, entries, horizon_of, possession_window_covers_block, possession_control_active,
}
use pashupatastra_sih.Optimizer.Model.{
  IndexedWindow, indexed_from, is_usable, matching_windows, window_start, window_end,
  selection_constraints, eligible_constraints, window_constraints, possession_constraints,
}
use pashupatastra_sih.Optimizer.Solve.{solve, scheduled_block}
use pashupatastra_sih.Optimizer.Unique.{UniqueIds, resolve_self, entries-In}
use pashupatastra_sih.Optimizer.Schedule.{solve-Solution, Solution-Placed, Placed-InWindow}
use pashupatastra_sih.Optimizer.Separation.{fits-member}

indexed-In :
    (n : ℕ) (ws : List PossessionWindow) {u : IndexedWindow} → In u (indexed_from n ws) → In u.1 ws
unfolding indexed_from
indexed-In n [] i = elim i [ ]
indexed-In n (w ∷ ws) (here e) = here (ap (λ u. u.1) e)
indexed-In n (w ∷ ws) (there i) = there (indexed-In (suc n) ws i)

-- If a sum of 0-1 variables is 1, one of them is 1.
some_selected :
    {A : Type 0} (v : Assignment) (f : A → Var) (xs : List A)
    → ((x : A) → In x xs → (v (f x) ≡ pos 0) ⊎ (v (f x) ≡ pos 1))
    → sum_vars v (map f xs) ≡ pos 1
    → (x : A) × In x xs × (v (f x) ≡ pos 1)
some_selected v f [] bits h = cc
some_selected {A} v f (x ∷ xs) bits h = elim (bits x (here refl)) [
  | inl z ↦
      let rest = sym (+ℤ-zero_left (sum_vars v (map f xs))) ∙ (rw z at h) in
      let (y, i, e) = some_selected v f xs (λ y i. bits y (there i)) rest in (y, there i, e)
  | inr o ↦ (x, here refl, o)
]

-- A window that covers a block and contains a placement.
pub record Covered {F : Type 0} (r : OptimizationRequest F) (b : BlockCandidate F) (s e : ℤ)
    : Type 0 where
  pub window : PossessionWindow
  pub declared : In window r.possession_windows
  pub covers : possession_window_covers_block window b ≡ true
  pub opens : window.start_minute ≤ℤ s
  pub closes : e ≤ℤ window.end_minute

-- One window of those posted for a present candidate is selected, and contains it.
eligible-window :
    (v : Assignment) (horizon : ℤ) (n p : ℕ) (us : List IndexedWindow)
    → All (Holds v) (eligible_constraints horizon n p us)
    → v (presence p) ≡ pos 1
    → (u : IndexedWindow) × In u us
      × (window_start u.1 ≤ℤ v (start p))
      × (v (end_of p) ≤ℤ window_end horizon u.1)
unfolding eligible_constraints selection_constraints
eligible-window v horizon n p [] h one = cc
eligible-window v horizon n p (w ∷ us) h one =
    let post = λ (u : IndexedWindow) (i : In u (w ∷ us)).
      All-flat_map (Holds v) (selection_constraints horizon n p) (w ∷ us) h.1 i in
    let (u, i, e) =
      some_selected v (λ (u : IndexedWindow). selection n u.0) (w ∷ us) (λ u i. (post u i).0)
        (h.0 ∙ one) in
    (u, i, (post u i).1.0 e, (post u i).1.1.0 e)

window_constraints-Covered :
    {F : Type 0} (r : OptimizationRequest F) (v : Assignment) (n p : ℕ) (b : BlockCandidate F)
    (ws : List PossessionWindow)
    → ((w : PossessionWindow)
        → In w ws
        → In w r.possession_windows × (possession_window_covers_block w b ≡ true))
    → possession_control_active r ≡ true
    → All (Holds v) (window_constraints r n p ws)
    → v (presence p) ≡ pos 1
    → Covered r b (v (start p)) (v (end_of p))
unfolding window_constraints
window_constraints-Covered r v n p b [] from active h one = cc ((rw active at h).0)
window_constraints-Covered r v n p b (w ∷ ws) from active h one =
    let all = indexed_from 0 (w ∷ ws) in
    let (u, i, lo, hi) =
      eligible-window v (horizon_of r) n p (keep (is_usable (horizon_of r)) all) h one in
    let d = from u.1 (indexed-In 0 (w ∷ ws) (keep-In (is_usable (horizon_of r)) all i).0) in
    record {
      window = u.1;
      declared = d.0;
      covers = d.1;
      opens = omega (arith, lo, le-max_right (pos 0) u.1.start_minute);
      closes = omega (arith, hi, min-le_right (horizon_of r) u.1.end_minute);
    }

any_window : (ws : List PossessionWindow) → ws ≢ [] → any (λ w. true) ws ≡ true
unfolding any
any_window [] n = absurd (n refl)
any_window (x ∷ xs) n = refl

pub control_active :
    {F : Type 0} (r : OptimizationRequest F)
    → r.possession_windows ≢ []
    → possession_control_active r ≡ true
control_active r n = any_window r.possession_windows n

-- Where the request declares possession windows, every block that `solve` schedules lies, from
-- start to end, inside one of the declared windows, and that window covers the block: the same
-- track, and the same section if the block declares one. So work on a track that no window covers
-- is never scheduled. CP-SAT is assumed to be sound and the ids distinct.
pub scheduled_possession :
    {F : Type 0} (py : Builtins F) (order : SetOrder) (r : OptimizationRequest F) (cp : CpSolver)
    {res : OptimizationResult F} {s : ScheduledBlock F}
    → IsSound cp
    → UniqueIds r.candidates
    → solve py order r cp ≡ ok res
    → In s res.scheduled_blocks
    → r.possession_windows ≢ []
    → (b : BlockCandidate F) × In b r.candidates
      × (s.block_id ≡ b.block_id)
      × (s.track_id ≡ b.track_id)
      × Covered r b s.start_minute s.end_minute
unfolding scheduled_block possession_constraints
scheduled_possession py order r cp {res} {s} sound u e i full =
    let sol = solve-Solution py order r cp sound e i in
    let v = sol.value in
    let p = Solution-Placed py r sol u i in
    let w = Placed-InWindow py r sol p in
    let post =
      All-flat_map (Holds v) (possession_constraints r) (entries r.candidates) sol.meets.possessions
        p.stands in
    let own =
      subst
        (λ (f : Entry _).
          All (Holds v) (window_constraints r p.entry.0 f.0 (matching_windows r p.entry.1)))
        (resolve_self r.candidates u p.stands)
        (rw (fits-member r u p.stands w.fits, possession_constraints) at post) in
    let c =
      window_constraints-Covered r v p.entry.0 p.entry.0 p.entry.1 (matching_windows r p.entry.1)
        (λ x j. keep-In (λ y. possession_window_covers_block y p.entry.1) r.possession_windows j)
        (control_active r full) own p.present in
    (
      p.entry.1,
      entries-In 0 r.candidates p.stands,
      ap (λ t. t.block_id) p.block,
      ap (λ t. t.track_id) p.block,
      subst (λ t. Covered r p.entry.1 t s.end_minute) (sym p.starts)
          (subst (λ t. Covered r p.entry.1 (v (start p.entry.0)) t) (sym p.ends) c),
    )
