-- ===== src/Optimizer/Clearance.antt =====
-- The clearances of a schedule returned by solver.py's `solve`: headway on a resource, and
-- exclusion within a group.
use pashupatastra_sih.Prelude.{
  ℤ, pos, ◌+ℤ◌, ◌≤ℤ◌, ◌<ℤ◌, ◌≡◌, sym, ap, ap₂, ◌∙◌, ◌≢◌, ◌⊎◌, inl, inr, some, String, ==_iff, All,
  All-In, In, arith, int_laws,
}
use pashupatastra_sih.Result.{ok}
use pashupatastra_sih.Contracts.{
  BlockCandidate, OptimizationRequest, OptimizationResult, ScheduledBlock,
}
use pashupatastra_sih.Python.{Builtins, SetOrder}
use pashupatastra_sih.Optimizer.Cp.{CpSolver, IsSound}
use pashupatastra_sih.Optimizer.Solver.{Entry, entries, resource_key}
use pashupatastra_sih.Optimizer.Model.{headway_of, mutex_group}
use pashupatastra_sih.Optimizer.Solve.{solve, scheduled_block}
use pashupatastra_sih.Optimizer.Unique.{UniqueIds, entries-In, eq_of_id}
use pashupatastra_sih.Optimizer.Schedule.{solve-Solution, Solution-Placed, Placed-InWindow}
use pashupatastra_sih.Optimizer.Separation.{headway_apart, mutex_apart}

-- Every candidate takes some time.
abbrev pub HasDuration : {F : Type 0} → OptimizationRequest F → Type 0
HasDuration r = All (λ b. pos 0 <ℤ b.duration_minutes) r.candidates

module _ {F : Type 0} (py : Builtins F) (order : SetOrder) (r : OptimizationRequest F)
    (cp : CpSolver) {res : OptimizationResult F} {s t : ScheduledBlock F} (sound : IsSound cp)
    (u : UniqueIds r.candidates) (lasting : HasDuration r) (e : solve py order r cp ≡ ok res)
    (is : In s res.scheduled_blocks) (it : In t res.scheduled_blocks)
    (ne : s.block_id ≢ t.block_id) where
  duration_of : {x : Entry F} → In x (entries r.candidates) → pos 0 <ℤ x.1.duration_minutes
  duration_of i = All-In _ r.candidates lasting (entries-In 0 r.candidates i)

  -- Two different blocks that `solve` schedules on one resource, the same track and the same
  -- section, are separated by at least the headway: one ends, and the headway passes, before the
  -- other starts. CP-SAT is assumed to be sound, the ids distinct and the durations positive.
  pub scheduled_headway :
      s.track_id ≡ t.track_id
      → s.section_id ≡ t.section_id
      → (s.end_minute +ℤ headway_of r ≤ℤ t.start_minute)
        ⊎ (t.end_minute +ℤ headway_of r ≤ℤ s.start_minute)
  unfolding scheduled_block
  scheduled_headway track section =
      let sol = solve-Solution py order r cp sound e is in
      let v = sol.value in
      let p = Solution-Placed py r sol u is in
      let q = Solution-Placed py r sol u it in
      let wp = Placed-InWindow py r sol p in
      let wq = Placed-InWindow py r sol q in
      let key : resource_key p.entry.1 ≡ (t.track_id, t.section_id) =
        ap₂ (λ a b. (a, b)) (ap (λ b. b.track_id) (sym p.block) ∙ track)
          (ap (λ b. b.section_id) (sym p.block) ∙ section) in
      let key' : resource_key q.entry.1 ≡ (t.track_id, t.section_id) =
        ap (λ b. (b.track_id, b.section_id)) (sym q.block) in
      let apart =
        headway_apart r v p.entry q.entry u p.stands q.stands p.present q.present
          (λ g. ne (
            ap (λ b. b.block_id) p.block
            ∙ ap (λ f. f.1.block_id) g
            ∙ sym (ap (λ b. b.block_id) q.block)))
          key key' wp.fits wq.fits (duration_of p.stands) (duration_of q.stands)
          sol.meets.resources in
      finish p.entry.1.duration_minutes q.entry.1.duration_minutes p.starts q.starts wp.lasts
        wq.lasts apart
    where
      finish :
          {a b : ℤ} (m n : ℤ)
          → s.start_minute ≡ a
          → t.start_minute ≡ b
          → s.end_minute ≡ s.start_minute +ℤ m
          → t.end_minute ≡ t.start_minute +ℤ n
          → (a +ℤ (m +ℤ headway_of r) ≤ℤ b) ⊎ (b +ℤ (n +ℤ headway_of r) ≤ℤ a)
          → (s.end_minute +ℤ headway_of r ≤ℤ t.start_minute)
            ⊎ (t.end_minute +ℤ headway_of r ≤ℤ s.start_minute)
      finish m n ea eb em en (inl h) = inl (rw (em, ea, eb) (omega int_laws))
      finish m n ea eb em en (inr h) = inr (rw (en, ea, eb) (omega int_laws))

  -- Two different blocks that `solve` schedules for candidates of one mutual-exclusion group do
  -- not overlap in time. CP-SAT is assumed to be sound, the ids distinct and the durations
  -- positive; the group's name is not empty.
  pub scheduled_mutex :
      {b c : BlockCandidate F} {g : String}
      → In b r.candidates
      → In c r.candidates
      → s.block_id ≡ b.block_id
      → t.block_id ≡ c.block_id
      → b.mutual_exclusion_group ≡ some g
      → c.mutual_exclusion_group ≡ some g
      → g ≢ ""
      → (s.end_minute ≤ℤ t.start_minute) ⊎ (t.end_minute ≤ℤ s.start_minute)
  unfolding scheduled_block
  scheduled_mutex {b} {c} {g} ib ic eb ec gb gc full =
      let sol = solve-Solution py order r cp sound e is in
      let p = Solution-Placed py r sol u is in
      let q = Solution-Placed py r sol u it in
      let pb =
        eq_of_id r.candidates u ib (entries-In 0 r.candidates p.stands)
          (sym eb ∙ ap (λ x. x.block_id) p.block) in
      let qc =
        eq_of_id r.candidates u ic (entries-In 0 r.candidates q.stands)
          (sym ec ∙ ap (λ x. x.block_id) q.block) in
      let apart =
        mutex_apart r sol.value p.entry q.entry u p.stands q.stands p.present q.present
          (λ h. ne (
            ap (λ x. x.block_id) p.block
            ∙ ap (λ f. f.1.block_id) h
            ∙ sym (ap (λ x. x.block_id) q.block)))
          (group_named p.entry (ap (λ x. x.mutual_exclusion_group) (sym pb) ∙ gb))
          (group_named q.entry (ap (λ x. x.mutual_exclusion_group) (sym qc) ∙ gc))
          (duration_of p.stands) (duration_of q.stands) sol.meets.mutexes in
      finish p.starts q.starts p.ends q.ends apart
    where
      finish :
          {a b c d : ℤ}
          → s.start_minute ≡ a
          → t.start_minute ≡ b
          → s.end_minute ≡ c
          → t.end_minute ≡ d
          → (c ≤ℤ b) ⊎ (d ≤ℤ a)
          → (s.end_minute ≤ℤ t.start_minute) ⊎ (t.end_minute ≤ℤ s.start_minute)
      finish ea eb ec ed (inl h) = inl (rw (ec, eb) h)
      finish ea eb ec ed (inr h) = inr (rw (ed, ea) h)

      group_named : (f : Entry F) → f.1.mutual_exclusion_group ≡ some g → mutex_group f ≡ some g
      group_named f h = ground (arith, ==_iff g "")
