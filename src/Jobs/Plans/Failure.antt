-- ===== src/Jobs/Plans/Failure.antt =====
-- backend/app/jobs/lifecycle.py: `plan_optimization_failure`, `plan_schedule_assignment` and
-- `rejected_transition_event`.
use pashupatastra_sih.Prelude.{ℤ, String, none, some, List, [], ◌∷◌, ◌++◌, if◌then◌else◌}
use pashupatastra_sih.Result.{Result, ok, ◌>>=◌, ◌>>◌, raise_if, terminal_job, committed_job}
use pashupatastra_sih.Contracts.{null, num, text}
use pashupatastra_sih.Jobs.State.{
  Actor, scheduled, Job, JobMutation, JobEvent, optimization_failed, proposal_invalidated,
  schedule_assigned, transition_rejected, unchanged, as_job, snapshot,
}
use pashupatastra_sih.Jobs.Events.{recorded, make_event, make_events}
use pashupatastra_sih.Jobs.Guards.{is_terminal, is_committed_status}
use pashupatastra_sih.Jobs.Validation.{is_scheduled}
use pashupatastra_sih.Jobs.Store.{Plan}
use pashupatastra_sih.Jobs.Plans.Blocks.{with_placement, withdrawn, withdrawn_metadata, lookup}
use pashupatastra_sih.Jobs.Plans.Optimization.{
  OptimizationAttempt, requested_event, base_mutation, optimizer_event, outcome_event, bool_value,
}

-- `base`
abbrev pub failure_base : {F : Type 0} → Job F → String → String → String → JobMutation F
failure_base job failed_at reason label = record (base_mutation job failed_at label) {
  last_refusal_reason = some reason;
}

-- The mutation of a job that the failed attempt considered.
unfoldable pub failure_mutation : {F : Type 0} → Job F → String → String → String → JobMutation F
failure_mutation job failed_at reason label =
    let base = failure_base job failed_at reason label in
    if is_scheduled job.status then withdrawn base job reason else base

-- The events after the request's.
unfoldable pub failure_events :
    {F : Type 0} → Job F → OptimizationAttempt → String → String → String → List JobEvent
failure_events job attempt failed_at reason label =
    optimizer_event optimization_failed job (snapshot job) attempt failed_at (some reason) (
      ("outcome", text label)
      ∷ ("commitment_preserved", bool_value (is_committed_status job.status))
      ∷ [])
    ∷ (if is_scheduled job.status
        then outcome_event job attempt failed_at (some reason) proposal_invalidated
            (failure_mutation job failed_at reason label)
            (("outcome", text label) ∷ withdrawn_metadata job)
          ∷ []
        else [])

-- One round of the loop of `plan_optimization_failure`.
unfoldable pub failure_of :
    {F : Type 0}
    → OptimizationAttempt
    → String
    → String
    → String
    → Job F
    → Result (List (JobMutation F) × List JobEvent)
failure_of attempt failed_at reason label job = if is_terminal job.status then ok ([], []) else do
  requested ← requested_event job attempt
  failed ← make_events (failure_events job attempt failed_at reason label)
  ok (failure_mutation job failed_at reason label ∷ [], requested ∷ failed)

-- `plan_optimization_failure`
unfoldable pub plan_optimization_failure :
    {F : Type 0} → List String → OptimizationAttempt → String → String → String → Plan F
plan_optimization_failure [] attempt failed_at reason label rows = ok ([], [])
plan_optimization_failure (k ∷ ks) attempt failed_at reason label rows = do
  job ← lookup k rows
  now ← failure_of attempt failed_at reason label job
  rest ← plan_optimization_failure ks attempt failed_at reason label rows
  ok (now.0 ++ rest.0, now.1 ++ rest.1)

unfoldable pub assignment_mutation : {F : Type 0} → Job F → ℤ → ℤ → String → JobMutation F
assignment_mutation job start_minute end_minute at_time = record (unchanged job) {
  status = scheduled;
  schedule_start_minute = some start_minute;
  schedule_end_minute = some end_minute;
  updated_at = some at_time;
  last_refusal_reason = none;
  block_candidate = with_placement job.block_candidate start_minute end_minute none;
}

unfoldable pub assignment_event : {F : Type 0} → String → Job F → ℤ → ℤ → Actor → String → JobEvent
assignment_event job_id job start_minute end_minute actor at_time = record {
  job_id = job_id;
  event_type = schedule_assigned;
  actor = actor;
  occurred_at = at_time;
  reason = none;
  optimization_run_id = null;
  before_state = some (snapshot job);
  after_state =
      some (snapshot (as_job (assignment_mutation job start_minute end_minute at_time) job));
  metadata =
      ("source", text "direct_assignment")
      ∷ ("start_minute", num start_minute)
      ∷ ("end_minute", num end_minute)
      ∷ [];
}

-- `plan_schedule_assignment`
unfoldable pub plan_schedule_assignment : {F : Type 0} → String → ℤ → ℤ → Actor → String → Plan F
plan_schedule_assignment job_id start_minute end_minute actor at_time rows = do
  job ← lookup job_id rows
  raise_if (is_terminal job.status) terminal_job
  raise_if (is_committed_status job.status) committed_job
  recorded (assignment_mutation job start_minute end_minute at_time)
      (assignment_event job_id job start_minute end_minute actor at_time)

-- `rejected_transition_event`, of the error's text and its class's name.
unfoldable pub rejected_transition_event :
    {F : Type 0} → Job F → Actor → String → String → String → String → Result JobEvent
rejected_transition_event job actor attempted error error_type at_time = make_event (record {
  job_id = job.job_id;
  event_type = transition_rejected;
  actor = actor;
  occurred_at = at_time;
  reason = some error;
  optimization_run_id = null;
  before_state = some (snapshot job);
  after_state = some (snapshot job);
  metadata = ("attempted_transition", text attempted) ∷ ("error_type", text error_type) ∷ [];
})
