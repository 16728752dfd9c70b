-- ===== src/Jobs/Plans/Settled.antt =====
-- What lifecycle.py's `plan_optimization_outcome` makes of one job.
use pashupatastra_sih.Prelude.{
  ℤ, ◌≡◌, refl, sym, ap, ap₂, subst, String, Bool, true, false, Option, none, some, is_some, keep,
  inl, inr, Bool-cases, Option-cases, arith,
}
use pashupatastra_sih.Prelude.Dict.{get, put, get-put, get-pop}
use pashupatastra_sih.Result.{ok, ok_injective}
use pashupatastra_sih.Contracts.{BlockCandidate, null, num, text}
use pashupatastra_sih.Jobs.State.{
  JobStatus, reported, scheduled, notified, in_progress, completed, Job, JobMutation, JobEvent,
  unchanged, get_value, proposal_run_id_key, committed_start_key, committed_end_key,
}
use pashupatastra_sih.Jobs.Guards.{
  is_terminal, is_committed_status, is_window, schedule_of, schedule_eq, committed_state_problems,
  assert_committed_state_consistent, gate_release_transition, gate_execution_transition,
  required_kind,
}
use pashupatastra_sih.Jobs.Validation.{
  protect_committed_and_terminal_state, assert_placement_invariants, validate_mutation,
  new_schedule, is_scheduled,
}
use pashupatastra_sih.Jobs.Accepted.{PlacementAgrees}
use pashupatastra_sih.Jobs.Protection.{IsWellFormed}
use pashupatastra_sih.Jobs.Plans.Blocks.{with_placement, withdrawn, text_value}
use pashupatastra_sih.Jobs.Plans.Optimization.{
  OptimizationAttempt, Placement, base_mutation, placement_schedule, placed_mutation,
  plan_placement, plan_refusal,
}
use pashupatastra_sih.Jobs.Plans.Outcome.{Outcome, outcome_of, explanation_of}
use pashupatastra_sih.Jobs.Plans.Kept.{kept_mutation, validate-kept}

-- A committed job stays as it is; another one that was placed is scheduled at its placement under
-- the run's id; one that was refused is reported, without a schedule, for a reason.
abbrev pub Settles :
    {F : Type 0} → Outcome → Job F → JobMutation F → Bool → Option Placement → Type 0
Settles o job m true p =
    (m.status ≡ job.status)
    × (new_schedule m ≡ schedule_of job)
    × (m.block_candidate ≡ job.block_candidate)
Settles o job m false (some p) =
    (m.status ≡ scheduled)
    × (new_schedule m ≡ placement_schedule p)
    × (get_value proposal_run_id_key m.block_candidate.metadata ≡ text_value o.attempt.run_id)
Settles o job m false none =
    (m.status ≡ reported) × (new_schedule m ≡ (none, none)) × (is_some m.last_refusal_reason ≡ true)

validate-placed :
    {F : Type 0} (j : Job F) (st : JobStatus) (p : Placement) (attempt : OptimizationAttempt)
    (u v : String)
    → j.status ≡ st
    → is_terminal st ≡ false
    → is_committed_status st ≡ false
    → is_window (placement_schedule p) ≡ true
    → validate_mutation j (placed_mutation j (base_mutation j u v) p attempt) ≡ ok tt
unfolding validate_mutation protect_committed_and_terminal_state assert_committed_state_consistent
    keep gate_execution_transition gate_release_transition required_kind committed_state_problems
    assert_placement_invariants placed_mutation unchanged
validate-placed j reported p attempt u v s t c w = rw (s, w) refl
validate-placed j scheduled p attempt u v s t c w = rw (s, w) refl
validate-placed j notified p attempt u v s t c w = cc
validate-placed j in_progress p attempt u v s t c w = cc
validate-placed j completed p attempt u v s t c w = cc

validate-withdrawn :
    {F : Type 0} (j : Job F) (u v reason : String)
    → j.status ≡ scheduled
    → validate_mutation j (withdrawn (base_mutation j u v) j reason) ≡ ok tt
unfolding validate_mutation protect_committed_and_terminal_state assert_committed_state_consistent
    keep gate_execution_transition gate_release_transition required_kind committed_state_problems
    assert_placement_invariants withdrawn unchanged
validate-withdrawn j u v reason s = rw s refl

placed_run :
    {F : Type 0} (b : BlockCandidate F) (s e : ℤ) (run : Option String)
    → get_value proposal_run_id_key (with_placement b s e run).metadata ≡ text_value run
unfolding with_placement
placed_run b s e none =
    ap (λ o. elim o [ none ↦ null | some v ↦ v ])
      (get-pop proposal_run_id_key proposal_run_id_key
        (put committed_end_key (num e) (put committed_start_key (num s) b.metadata)))
placed_run b s e (some r) =
    ap (λ o. elim o [ none ↦ null | some v ↦ v ])
      (get-put proposal_run_id_key proposal_run_id_key (text r)
        (put committed_end_key (num e) (put committed_start_key (num s) b.metadata)))

module _ {F : Type 0} (o : Outcome) (k : String) (job : Job F) (well : IsWellFormed job)
    (active : is_terminal job.status ≡ false) where
  -- What is claimed of one planned mutation.
  Planned : JobMutation F → Type 0
  Planned m =
      (validate_mutation job m ≡ ok tt)
      × Settles o job m (is_committed_status job.status) (get k o.placements)

  kept-Planned :
      (p : Option Placement) (reason : Option String)
      → is_committed_status job.status ≡ true
      → (validate_mutation job
            (kept_mutation job (some o.completed_at) (some o.solver_status) reason)
          ≡ ok tt)
        × Settles o job
            (kept_mutation job (some o.completed_at) (some o.solver_status) reason)
            (is_committed_status job.status)
            p
  unfolding unchanged
  kept-Planned p reason c = (
    validate-kept job (some o.completed_at) (some o.solver_status) reason well active,
    subst
        (λ b.
          Settles o job (kept_mutation job (some o.completed_at) (some o.solver_status) reason) b p)
        (sym c) (refl, refl, refl),
  )

  placed-Planned :
      (p : Placement) {m : JobMutation F} {e : JobEvent}
      → is_window (placement_schedule p) ≡ true
      → plan_placement job
          (base_mutation job o.completed_at o.solver_status)
          p
          o.attempt
          o.completed_at
          o.solver_status
          (explanation_of o k)
        ≡ ok (m, e)
      → (validate_mutation job m ≡ ok tt)
        × Settles o job m (is_committed_status job.status) (some p)
  unfolding plan_placement unchanged placed_mutation
  placed-Planned p {m} {e} w h = elim (Bool-cases (is_committed_status job.status)) [
    | inl c ↦ elim (Bool-cases (schedule_eq (placement_schedule p) (schedule_of job))) [
      | inl same ↦
          subst
            (λ x.
              (validate_mutation job x ≡ ok tt)
              × Settles o job x (is_committed_status job.status) (some p))
            (ap (λ x. x.0) (ok_injective (rw (c, same) at h))) (kept-Planned (some p) none c)
      | inr differs ↦ cc (rw (c, differs) at h)
    ]
    | inr f ↦
        subst
          (λ x.
            (validate_mutation job x ≡ ok tt)
            × Settles o job x (is_committed_status job.status) (some p))
          (ap (λ x. x.0) (ok_injective (rw f at h)))
          (
            validate-placed job job.status p o.attempt o.completed_at o.solver_status refl active f
                w,
            subst
                (λ b.
                  Settles o job
                    (placed_mutation job (base_mutation job o.completed_at o.solver_status) p
                      o.attempt)
                    b (some p))
                (sym f)
                (
                  refl,
                  refl,
                  placed_run job.block_candidate p.start_minute p.end_minute o.attempt.run_id,
                ),
          )
  ]

  unplaced_kept :
      (st : JobStatus)
      → job.status ≡ st
      → is_committed_status st ≡ false
      → is_terminal st ≡ false
      → is_scheduled st ≡ false
      → (job.status ≡ reported) × (schedule_of job ≡ (none, none))
  unplaced_kept reported q c t s =
      let p = subst (λ x. PlacementAgrees x (schedule_of job)) q well.placed in
      (q, ap₂ (λ x y. (x, y)) p.0 p.1)
  unplaced_kept scheduled q c t s = cc
  unplaced_kept notified q c t s = cc
  unplaced_kept in_progress q c t s = cc
  unplaced_kept completed q c t s = cc

  refused-Planned :
      (reason : String) (m : JobMutation F)
      → (plan_refusal job
          (base_mutation job o.completed_at o.solver_status)
          reason
          o.attempt
          o.completed_at
          o.solver_status).0
        ≡ m
      → (validate_mutation job m ≡ ok tt) × Settles o job m (is_committed_status job.status) none
  unfolding plan_refusal unchanged withdrawn
  refused-Planned reason m h = elim (Bool-cases (is_committed_status job.status)) [
    | inl c ↦ subst claim (rw c at h) (kept-Planned none (some reason) c)
    | inr f ↦
        subst (λ b. (validate_mutation job m ≡ ok tt) × Settles o job m b none) (sym f)
          (elim (Bool-cases (is_scheduled job.status)) [
            | inl s ↦ subst free (rw (f, s) at h) (
              validate-withdrawn job o.completed_at o.solver_status reason
                  (scheduled-eq job.status s),
              (refl, refl, refl),
            )
            | inr s ↦
                let (q, n) = unplaced_kept job.status refl f active s in
                subst free (rw (f, s) at h) (
                  validate-kept job (some o.completed_at) (some o.solver_status) (some reason) well
                      active,
                  (q, n, refl),
                )
          ])
  ]
    where
      claim : JobMutation F → Type 0
      claim x =
          (validate_mutation job x ≡ ok tt) × Settles o job x (is_committed_status job.status) none

      free : JobMutation F → Type 0
      free x = (validate_mutation job x ≡ ok tt) × Settles o job x false none

      scheduled-eq : (st : JobStatus) → is_scheduled st ≡ true → st ≡ scheduled
      scheduled-eq st s = ground arith

-- If the solver's placements are windows, the mutation that is planned for a well-formed job that is
-- not completed is accepted by the guard of every write, and settles the job: a committed job keeps
-- its status, its schedule and its block; a placed one is scheduled at its placement under the run's
-- id; a refused one is reported without a schedule, with a reason.
pub outcome-Settles :
    {F : Type 0} (o : Outcome) (k : String) (job : Job F) (m : JobMutation F) (e : JobEvent)
    → IsWellFormed job
    → is_terminal job.status ≡ false
    → ((p : Placement) → get k o.placements ≡ some p → is_window (placement_schedule p) ≡ true)
    → outcome_of o k job ≡ ok (m, e)
    → (validate_mutation job m ≡ ok tt)
      × Settles o job m (is_committed_status job.status) (get k o.placements)
unfolding outcome_of
outcome-Settles o k job m e well active windows h = elim (Option-cases (get k o.placements)) [
  | inr (p, q) ↦
      subst
        (λ x.
          (validate_mutation job m ≡ ok tt) × Settles o job m (is_committed_status job.status) x)
        (sym q) (placed-Planned o k job well active p (windows p q) (rw (q, outcome_of) at h))
  | inl n ↦
      subst
        (λ x.
          (validate_mutation job m ≡ ok tt) × Settles o job m (is_committed_status job.status) x)
        (sym n)
        (elim (Option-cases (get k o.refusals)) [
          | inl r ↦ cc (rw (n, r, outcome_of) at h)
          | inr (reason, r) ↦
              refused-Planned o k job well active reason m
                (ap (λ x. x.0) (ok_injective (rw (n, r, outcome_of) at h)))
        ])
]
