-- ===== src/Examples/Decisions.antt =====
-- The decisions of lifecycle.py at one job, and the outcome of an optimization of it.
use pashupatastra_sih.Prelude.{
  ℤ, pos, max_ℤ, ltb_ℤ, ◌+ℤ◌, ◌≡◌, refl, subst, some_injective, String, true, false, none, some, [],
  ◌∷◌,
}
use pashupatastra_sih.Prelude.Dict.{get}
use pashupatastra_sih.Prelude.Blank.{is_blank, is_space}
use pashupatastra_sih.Result.{ok, ◌>>=◌}
use pashupatastra_sih.Contracts.{BlockCandidate, Value, text, num}
use pashupatastra_sih.Contracts
use pashupatastra_sih.Jobs.State.{
  Actor, engineer, scheduled, Job, JobMutation, JobEvent, block_reproposed, block_committed,
  proposal_rejected, proposal_postponed, block_released, get_value, released_run_id_key,
}
use pashupatastra_sih.Jobs.Guards.{is_window, schedule_of, committed_state_problems}
use pashupatastra_sih.Jobs.Validation.{validate_mutation, fully_released}
use pashupatastra_sih.Jobs.Store.{Store, row, mutate_jobs}
use pashupatastra_sih.Jobs.Protection.{IsWellFormed}
use pashupatastra_sih.Optimizer.Solver.{does_not_fit}
use pashupatastra_sih.Jobs.Plans.Blocks.{require_identified_human, require_nonblank, merge}
use pashupatastra_sih.Jobs.Plans.Human.{
  plan_commit, plan_reject, postpone_mutation, plan_postpone, plan_release,
}
use pashupatastra_sih.Jobs.Plans.Decisions.{
  Proposed, commit-succeeds, reject-succeeds, postpone-succeeds,
}
use pashupatastra_sih.Jobs.Events.{is_event_time, follows}
use pashupatastra_sih.Jobs.Plans.Written.{Written, Committed, Unplaced, Between}
use pashupatastra_sih.Jobs.Plans.Release.{release-succeeds}
use pashupatastra_sih.Jobs.Plans.Window.{postpone-fits}
use pashupatastra_sih.Jobs.Plans.Optimization.{
  Placement, placement_schedule, plan_placement, base_mutation, placed_mutation, outcome_event,
  placement_location, previous_proposal,
}
use pashupatastra_sih.Jobs.Plans.Outcome.{Outcome, outcome_of}
use pashupatastra_sih.Jobs.Plans.Settled.{Settles, outcome-Settles}
use pashupatastra_sih.Examples.Requests.{first_work}
use pashupatastra_sih.Examples.Stores.{new_job, notified_job, store_of}

abbrev pub person : Actor
person = record { actor_id = "E1"; role = engineer }

-- Two times in the format of the events.
abbrev pub asked_at : String
asked_at = "2026-01-01T09:00:00.000000+00:00"

abbrev pub decided_at : String
decided_at = "2026-01-01T09:30:00.000000+00:00"

pub timely : is_event_time decided_at ≡ true
unfolding is_event_time follows
timely = refl

person-identified : require_identified_human person ≡ ok tt
unfolding require_identified_human
person-identified = refl

abbrev pub proposed_job : Job ℤ
proposed_job = record new_job {
  status = scheduled;
  schedule_start_minute = some (pos 30);
  schedule_end_minute = some (pos 90);
  block_candidate = record first_work {
    status = Contracts.scheduled;
    metadata =
        ("committed_start_minute", num (pos 30))
        ∷ ("committed_end_minute", num (pos 90))
        ∷ ("proposal_run_id", text "R1")
        ∷ [];
  };
}

proposed : Proposed "J1" "R1" proposed_job (store_of proposed_job)
unfolding row get
proposed = record { stored = refl; is_proposed = refl; placed = refl; of_run = refl }

nonblank : (s : String) → is_blank s ≡ false → require_nonblank s ≡ ok tt
nonblank s h = rw h refl

run-nonblank : is_blank "R1" ≡ false
unfolding is_blank is_space
run-nonblank = refl

reason-nonblank : is_blank "late" ≡ false
unfolding is_blank is_space
reason-nonblank = refl

commit-succeeds_example :
    let store = store_of proposed_job in
    (after : Store ℤ) × (j' : Job ℤ) × (e : JobEvent) × (mutate_jobs
        ("J1" ∷ [])
        (plan_commit "J1" person decided_at (some "R1"))
        true
        store
      ≡ ok after)
    × Written "J1" proposed_job store block_committed person decided_at none (text "R1") after j' e
    × Committed proposed_job j'
unfolding get
commit-succeeds_example =
    commit-succeeds "J1" "R1" proposed_job (store_of proposed_job) person decided_at proposed
      person-identified refl timely refl

reject-succeeds_example :
    let store = store_of proposed_job in
    (after : Store ℤ) × (j' : Job ℤ) × (e : JobEvent) × ((plan_reject "J1" person decided_at "late"
          "R1"
        >>= λ plan. mutate_jobs ("J1" ∷ []) plan true store)
      ≡ ok after)
    × Written "J1" proposed_job store proposal_rejected person decided_at
        (some "late")
        (text "R1")
        after
        j'
        e
    × Unplaced "late" j'
    × Between (pos 0) (pos 480) j'
reject-succeeds_example =
    reject-succeeds "J1" "R1" proposed_job (store_of proposed_job) person decided_at proposed
      person-identified refl timely "late" (nonblank "R1" run-nonblank)
      (nonblank "late" reason-nonblank)

postpone-succeeds_example :
    let store = store_of proposed_job in
    (after : Store ℤ) × (j' : Job ℤ) × (e : JobEvent) × ((plan_postpone "J1" person decided_at
          "late" "2026-01-02"
          (pos 100)
          (pos 480)
          "R1"
          none
        >>= λ plan. mutate_jobs ("J1" ∷ []) plan true store)
      ≡ ok after)
    × Written "J1" proposed_job store proposal_postponed person decided_at
        (some "late")
        (text "R1")
        after
        j'
        e
    × Unplaced "late" j'
    × Between (pos 100) (max_ℤ (pos 480) (pos 480)) j'
    × (get_value "not_before_minute" e.metadata ≡ num (pos 100))
postpone-succeeds_example =
    postpone-succeeds "J1" "R1" proposed_job (store_of proposed_job) person decided_at proposed
      person-identified refl timely "late" "2026-01-02" (pos 100) (pos 480) none
      (nonblank "R1" run-nonblank) (nonblank "late" reason-nonblank) refl

release-succeeds_example :
    let store = store_of notified_job in
    (after : Store ℤ) × (j' : Job ℤ) × (e : JobEvent) × ((plan_release "J1" person decided_at "late"
          "R1"
          (pos 480)
        >>= λ plan. mutate_jobs ("J1" ∷ []) plan true store)
      ≡ ok after)
    × Written "J1" notified_job store block_released person decided_at
        (some "late")
        (text "R1")
        after
        j'
        e
    × Unplaced "late" j'
    × (fully_released j'.block_candidate (schedule_of j') ≡ true)
    × Between (max_ℤ (pos 0) (pos 90)) (max_ℤ (pos 480) (pos 480)) j'
    × (get_value released_run_id_key e.metadata ≡ text "R1")
    × (get_value "not_before_minute" e.metadata ≡ num (max_ℤ (pos 0) (pos 90)))
unfolding row get committed_state_problems
release-succeeds_example =
    release-succeeds "J1" "R1" notified_job (store_of notified_job) person decided_at "late"
      (pos 90) (pos 480) refl timely refl refl refl refl refl person-identified
      (nonblank "R1" run-nonblank) (nonblank "late" reason-nonblank)

postpone-fits_example :
    does_not_fit
      (pos 480)
      (postpone_mutation proposed_job decided_at "late" (pos 450) (pos 480)).block_candidate
    ≡ ltb_ℤ (pos 480) (pos 450 +ℤ pos 60)
postpone-fits_example = postpone-fits proposed_job decided_at "late" (pos 450) (pos 480) refl

abbrev pub outcome : Outcome
outcome = record {
  attempt = record {
    corridor_id = "C1";
    requester = some person;
    requested_at = asked_at;
    run_id = some "R2";
    horizon_start = "h";
    trigger = "jobs_optimize";
  };
  completed_at = decided_at;
  solver_status = "optimal";
  placements =
      ("J1", record { start_minute = pos 40; end_minute = pos 100; track_id = some "T1" }) ∷ [];
  refusals = [];
  expected_statuses = none;
  record_history = true;
  explanations = none;
}

abbrev new_placement : Placement
new_placement = record { start_minute = pos 40; end_minute = pos 100; track_id = some "T1" }

pub proposed-IsWellFormed : IsWellFormed proposed_job
unfolding committed_state_problems
proposed-IsWellFormed = record { consistent = refl; placed = refl }

abbrev settled_mutation : JobMutation ℤ
settled_mutation =
    placed_mutation proposed_job (base_mutation proposed_job decided_at "optimal") new_placement
      outcome.attempt

abbrev settled_event : JobEvent
settled_event =
    outcome_event proposed_job outcome.attempt decided_at none block_reproposed settled_mutation (
      merge (placement_location proposed_job new_placement outcome.attempt "optimal" none)
        (previous_proposal proposed_job new_placement))

settled : outcome_of outcome "J1" proposed_job ≡ ok (settled_mutation, settled_event)
unfolding outcome_of plan_placement get
settled = refl

windows :
    (p : Placement) → get "J1" outcome.placements ≡ some p → is_window (placement_schedule p) ≡ true
unfolding get
windows p q = subst (λ x. is_window (placement_schedule x) ≡ true) (some_injective q) refl

outcome-Settles_example :
    (validate_mutation proposed_job settled_mutation ≡ ok tt)
    × Settles outcome proposed_job settled_mutation false (some new_placement)
unfolding get
outcome-Settles_example =
    outcome-Settles outcome "J1" proposed_job settled_mutation settled_event proposed-IsWellFormed
      refl windows settled
