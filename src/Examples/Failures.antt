-- ===== src/Examples/Failures.antt =====
-- A failed optimization of one proposed job, and a placement that is assigned to it directly.
use pashupatastra_sih.Prelude.{
  ℤ, pos, ◌≡◌, refl, subst, some_injective, String, true, none, some, [], ◌∷◌, ◌==◌, All,
  Bool-cases, inl, inr,
}
use pashupatastra_sih.Prelude.Dict.{Dict, get}
use pashupatastra_sih.Result.{ok}
use pashupatastra_sih.Jobs.State.{
  Job, JobEvent, optimization_requested, schedule_assigned, get_value, snapshot,
}
use pashupatastra_sih.Contracts.{null, text, num}
use pashupatastra_sih.Jobs.Store.{Store, row, mutate_jobs}
use pashupatastra_sih.Jobs.Protection.{IsWellFormed}
use pashupatastra_sih.Jobs.Plans.Optimization.{requested_event, optimizer_event, outcome_event}
use pashupatastra_sih.Jobs.Plans.Assignment.{Assigned, plan_schedule_assignment-succeeds}
use pashupatastra_sih.Jobs.Plans.Written.{Written}
use pashupatastra_sih.Jobs.Events.{is_event_time, follows, make_event, make_events}
use pashupatastra_sih.Jobs.Plans.Failure.{
  failure_mutation, failure_events, failure_of, plan_optimization_failure, plan_schedule_assignment,
}
use pashupatastra_sih.Jobs.Plans.Aftermath.{Harmless, plan_optimization_failure-Harmless}
use pashupatastra_sih.Examples.Decisions.{
  asked_at, decided_at, timely, person, proposed_job, proposed-IsWellFormed, outcome,
}
use pashupatastra_sih.Examples.Stores.{store_of}

abbrev read : Dict (Job ℤ)
read = ("J1", proposed_job) ∷ []

read-WellFormed : (k : String) (j : Job ℤ) → get k read ≡ some j → IsWellFormed j
unfolding get
read-WellFormed k j h = elim (Bool-cases ("J1" == k)) [
  | inl t ↦ subst IsWellFormed (some_injective (rw (t, get) at h)) proposed-IsWellFormed
  | inr f ↦ cc (rw (f, get) at h)
]

abbrev requested : JobEvent
requested = record {
  job_id = "J1";
  event_type = optimization_requested;
  actor = person;
  occurred_at = asked_at;
  reason = none;
  optimization_run_id = text "R2";
  before_state = some (snapshot proposed_job);
  after_state = some (snapshot proposed_job);
  metadata = ("corridor_id", text "C1") ∷ ("trigger", text "jobs_optimize") ∷ [];
}

failure-planned :
    plan_optimization_failure ("J1" ∷ []) outcome.attempt decided_at "timeout" "failed" read
    ≡ ok (
      failure_mutation proposed_job decided_at "timeout" "failed" ∷ [],
      requested ∷ failure_events proposed_job outcome.attempt decided_at "timeout" "failed",
    )
unfolding plan_optimization_failure failure_of get requested_event make_event make_events
    is_event_time follows failure_events failure_mutation optimizer_event outcome_event
failure-planned = refl

plan_optimization_failure-Harmless_example :
    All (Harmless read) (failure_mutation proposed_job decided_at "timeout" "failed" ∷ [])
plan_optimization_failure-Harmless_example =
    plan_optimization_failure-Harmless ("J1" ∷ []) outcome.attempt decided_at "timeout" "failed"
      read read-WellFormed failure-planned

plan_schedule_assignment-succeeds_example :
    let store = store_of proposed_job in
    (after : Store ℤ) × (j' : Job ℤ) × (e : JobEvent) × (mutate_jobs
        ("J1" ∷ [])
        (plan_schedule_assignment "J1" (pos 30) (pos 60) person decided_at)
        true
        store
      ≡ ok after)
    × Written "J1" proposed_job store schedule_assigned person decided_at none null after j' e
    × Assigned (pos 30) (pos 60) j'
    × (get_value "start_minute" e.metadata ≡ num (pos 30))
    × (get_value "end_minute" e.metadata ≡ num (pos 60))
unfolding row
plan_schedule_assignment-succeeds_example =
    plan_schedule_assignment-succeeds "J1" proposed_job (store_of proposed_job) (pos 30) (pos 60)
      person decided_at refl timely refl refl refl refl
