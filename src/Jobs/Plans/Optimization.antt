-- ===== src/Jobs/Plans/Optimization.antt =====
-- backend/app/jobs/lifecycle.py: the plans that apply a solver's outcome to the jobs it considered,
-- `plan_optimization_outcome` and `plan_optimization_failure`.
use pashupatastra_sih.Prelude.{
  ℤ, String, Bool, true, false, not, Option, none, some, [], ◌∷◌, if◌then◌else◌,
}
use pashupatastra_sih.Prelude.Dict.{Dict}
use pashupatastra_sih.Result.{Result, ok, err, committed_job, type_error}
use pashupatastra_sih.Contracts.{Value, num, text, json}
use pashupatastra_sih.Jobs.State.{
  Actor, system, scheduled, Job, JobMutation, JobEvent, JobEventType, optimization_requested,
  block_proposed, block_reproposed, optimization_refused, proposal_invalidated,
  committed_block_preserved, committed_block_conflict, unchanged, as_job, proposal_run_id_of,
  snapshot, JobStateSnapshot,
}
use pashupatastra_sih.Jobs.Events.{make_event}
use pashupatastra_sih.Jobs.Guards.{is_committed_status, schedule_eq, schedule_of}
use pashupatastra_sih.Jobs.Validation.{is_scheduled}
use pashupatastra_sih.Jobs.Plans.Blocks.{
  with_placement, withdrawn, withdrawn_metadata, merge, minute_value, text_value,
}

-- `OptimizationAttempt`
pub record OptimizationAttempt : Type 0 where
  pub corridor_id : String
  pub requester : Option Actor
  pub requested_at : String
  pub run_id : Option String
  pub horizon_start : String
  pub trigger : String

-- One of the `placements`.
pub record Placement : Type 0 where
  pub start_minute : ℤ
  pub end_minute : ℤ
  pub track_id : Option String

-- `_requested_event`; an event without an actor is a TypeError.
unfoldable pub requested_event : {F : Type 0} → Job F → OptimizationAttempt → Result JobEvent
requested_event job attempt = elim attempt.requester [
  | none ↦ err type_error
  | some actor ↦ make_event (record {
    job_id = job.job_id;
    event_type = optimization_requested;
    actor = actor;
    occurred_at = attempt.requested_at;
    reason = none;
    optimization_run_id = text_value attempt.run_id;
    before_state = some (snapshot job);
    after_state = some (snapshot job);
    metadata = ("corridor_id", text attempt.corridor_id) ∷ ("trigger", text attempt.trigger) ∷ [];
  })
]

-- `OPTIMIZER`
abbrev pub optimizer_actor : Actor
optimizer_actor = record { actor_id = "SYSTEM:OPTIMIZER"; role = system }

-- The mutation that every outcome starts from.
abbrev pub base_mutation : {F : Type 0} → Job F → String → String → JobMutation F
base_mutation job completed_at solver_status = record (unchanged job) {
  updated_at = some completed_at;
  last_solver_status = some solver_status;
}

-- An event of the optimizer about one job.
unfoldable pub optimizer_event :
    {F : Type 0}
    → JobEventType
    → Job F
    → JobStateSnapshot
    → OptimizationAttempt
    → String
    → Option String
    → Dict Value
    → JobEvent
optimizer_event event_type job after attempt at_time reason metadata = record {
  job_id = job.job_id;
  event_type = event_type;
  actor = optimizer_actor;
  occurred_at = at_time;
  reason = reason;
  optimization_run_id = text_value attempt.run_id;
  before_state = some (snapshot job);
  after_state = some after;
  metadata = metadata;
}

-- The event of an outcome, whose after-state is the mutated job's.
unfoldable pub outcome_event :
    {F : Type 0}
    → Job F
    → OptimizationAttempt
    → String
    → Option String
    → JobEventType
    → JobMutation F
    → Dict Value
    → JobEvent
outcome_event job attempt at_time reason event_type mutation metadata =
    optimizer_event event_type job (snapshot (as_job mutation job)) attempt at_time reason metadata

abbrev pub bool_value : Bool → Value
bool_value true = json "true"
bool_value false = json "false"

unfoldable pub placement_location :
    {F : Type 0}
    → Job F
    → Placement
    → OptimizationAttempt
    → String
    → Option (Dict Value)
    → Dict Value
placement_location job placement attempt solver_status explanation =
    merge
      (("track_id", text_value placement.track_id)
        ∷ ("section_id", text_value job.block_candidate.section_id)
        ∷ ("start_minute", num placement.start_minute)
        ∷ ("end_minute", num placement.end_minute)
        ∷ ("horizon_start", text attempt.horizon_start)
        ∷ ("solver_status", text solver_status)
        ∷ [])
      (elim explanation [ none ↦ [] | some d ↦ d ])

abbrev pub placement_schedule : Placement → Option ℤ × Option ℤ
placement_schedule p = (some p.start_minute, some p.end_minute)

unfoldable pub placed_mutation :
    {F : Type 0} → Job F → JobMutation F → Placement → OptimizationAttempt → JobMutation F
placed_mutation job base placement attempt = record base {
  status = scheduled;
  schedule_start_minute = some placement.start_minute;
  schedule_end_minute = some placement.end_minute;
  last_refusal_reason = none;
  block_candidate =
      with_placement job.block_candidate placement.start_minute placement.end_minute attempt.run_id;
}

unfoldable pub previous_proposal : {F : Type 0} → Job F → Placement → Dict Value
previous_proposal job placement =
    ("previous_start_minute", minute_value job.schedule_start_minute)
    ∷ ("previous_end_minute", minute_value job.schedule_end_minute)
    ∷ ("previous_proposal_run_id", proposal_run_id_of job)
    ∷ (
      "placement_changed",
      bool_value (not (schedule_eq (schedule_of job) (placement_schedule placement))),
    )
    ∷ []

-- `_plan_placement`
unfoldable pub plan_placement :
    {F : Type 0}
    → Job F
    → JobMutation F
    → Placement
    → OptimizationAttempt
    → String
    → String
    → Option (Dict Value)
    → Result (JobMutation F × JobEvent)
plan_placement job base placement attempt completed_at solver_status explanation =
    let location = placement_location job placement attempt solver_status explanation in
    let event = outcome_event job attempt completed_at none in
    if is_committed_status job.status
    then (if not (schedule_eq (placement_schedule placement) (schedule_of job))
        then err committed_job
        else (let mutation = record base { last_refusal_reason = none } in
            ok (mutation, event committed_block_preserved mutation location)))
    else (let mutation = placed_mutation job base placement attempt in
        ok (
          mutation,
          if is_scheduled job.status
              then event block_reproposed mutation
                  (merge location (previous_proposal job placement))
              else event block_proposed mutation location,
        ))

-- `_plan_refusal`
unfoldable pub plan_refusal :
    {F : Type 0}
    → Job F
    → JobMutation F
    → String
    → OptimizationAttempt
    → String
    → String
    → JobMutation F × JobEvent
plan_refusal job base reason attempt completed_at solver_status =
    let event = outcome_event job attempt completed_at (some reason) in
    let kept = record base { last_refusal_reason = some reason } in
    let solved = ("solver_status", text solver_status) ∷ [] in
    if is_committed_status job.status
    then (
      kept,
      event committed_block_conflict kept
          (merge solved (("commitment_preserved", bool_value true) ∷ [])),
    )
    else (if is_scheduled job.status
        then (
          withdrawn base job reason,
          event proposal_invalidated (withdrawn base job reason)
              (merge solved (withdrawn_metadata job)),
        )
        else (kept, event optimization_refused kept solved))
