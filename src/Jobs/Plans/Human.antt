-- ===== src/Jobs/Plans/Human.antt =====
-- backend/app/jobs/lifecycle.py: the transitions that a person takes, `plan_commit`, `plan_reject`,
-- `plan_postpone` and `plan_release`. The checks that the last three make before they return a plan
-- are in the `Result` around the plan.
use pashupatastra_sih.Prelude.{
  ℤ, pos, ltb_ℤ, leb_ℤ, String, Bool, true, false, not, ◌||◌, Option, none, some, is_some, [], ◌∷◌,
}
use pashupatastra_sih.Prelude.Dict.{Dict}
use pashupatastra_sih.Result.{
  Result, ok, err, ◌>>=◌, ◌>>◌, raise_if, invalid_transition, stale_proposal, type_error,
}
use pashupatastra_sih.Contracts.{Value, num, text}
use pashupatastra_sih.Jobs.State.{
  Actor, notified, Job, JobMutation, JobEvent, JobEventType, block_committed, proposal_rejected,
  proposal_postponed, block_released, unchanged, as_job, value_eq, proposal_run_id_of, snapshot,
  released_run_id_key,
}
use pashupatastra_sih.Jobs.Events.{recorded}
use pashupatastra_sih.Jobs.Guards.{is_notified, assert_committed_state_consistent}
use pashupatastra_sih.Jobs.Validation.{is_scheduled}
use pashupatastra_sih.Jobs.Store.{Plan}
use pashupatastra_sih.Jobs.Execution.Ids.{proposal_id_for}
use pashupatastra_sih.Jobs.Plans.Blocks.{
  committed_block, withdrawn, raise_not_before, minute_value, text_value, require_nonblank,
  require_identified_human, lookup,
}

-- `expected is not None and expected != current`
abbrev pub is_stale : Option String → Value → Bool
is_stale none current = false
is_stale (some e) current = not (value_eq (text e) current)

-- The schedule has both ends.
abbrev pub has_proposal : {F : Type 0} → Job F → Bool
has_proposal job =
    not (not (is_some job.schedule_start_minute) || not (is_some job.schedule_end_minute))

unfoldable pub commit_mutation : {F : Type 0} → Job F → String → JobMutation F
commit_mutation job at_time = record (unchanged job) {
  status = notified;
  updated_at = some at_time;
  block_candidate = committed_block job.block_candidate;
}

-- A human decision's event about a mutation.
unfoldable pub decision_event :
    {F : Type 0}
    → JobEventType
    → String
    → Job F
    → JobMutation F
    → Actor
    → String
    → Option String
    → Dict Value
    → JobEvent
decision_event event_type job_id job mutation actor at_time reason metadata = record {
  job_id = job_id;
  event_type = event_type;
  actor = actor;
  occurred_at = at_time;
  reason = reason;
  optimization_run_id = proposal_run_id_of job;
  before_state = some (snapshot job);
  after_state = some (snapshot (as_job mutation job));
  metadata = metadata;
}

unfoldable pub commit_event :
    {F : Type 0} → String → Job F → Actor → String → Option String → JobEvent
commit_event job_id job actor at_time expected =
    decision_event block_committed job_id job (commit_mutation job at_time) actor at_time none (
      ("transition", text "notify")
      ∷ ("start_minute", minute_value job.schedule_start_minute)
      ∷ ("end_minute", minute_value job.schedule_end_minute)
      ∷ ("expected_proposal_run_id", text_value expected)
      ∷ [])

-- `plan_commit`
unfoldable pub plan_commit : {F : Type 0} → String → Actor → String → Option String → Plan F
plan_commit job_id actor at_time expected rows = do
  job ← lookup job_id rows
  raise_if (not (is_scheduled job.status)) invalid_transition
  require_identified_human actor
  raise_if (not (has_proposal job)) invalid_transition
  raise_if (is_stale expected (proposal_run_id_of job)) stale_proposal
  recorded (commit_mutation job at_time) (commit_event job_id job actor at_time expected)

unfoldable pub reject_mutation : {F : Type 0} → Job F → String → String → JobMutation F
reject_mutation job at_time reason =
    withdrawn (record (unchanged job) { updated_at = some at_time }) job reason

unfoldable pub reject_event :
    {F : Type 0} → String → Job F → Actor → String → String → String → JobEvent
reject_event job_id job actor at_time reason expected =
    decision_event proposal_rejected job_id job (reject_mutation job at_time reason) actor at_time
      (some reason)
      (("transition", text "reject")
        ∷ ("rejected_start_minute", minute_value job.schedule_start_minute)
        ∷ ("rejected_end_minute", minute_value job.schedule_end_minute)
        ∷ ("expected_proposal_run_id", text expected)
        ∷ [])

-- `plan_reject`
unfoldable pub plan_reject :
    {F : Type 0} → String → Actor → String → String → String → Result (Plan F)
plan_reject job_id actor at_time reason expected = do
  require_nonblank expected
  require_nonblank reason
  ok (λ rows. do
    job ← lookup job_id rows
    raise_if (not (is_scheduled job.status)) invalid_transition
    require_identified_human actor
    raise_if (not (has_proposal job)) invalid_transition
    raise_if (is_stale (some expected) (proposal_run_id_of job)) stale_proposal
    recorded (reject_mutation job at_time reason)
        (reject_event job_id job actor at_time reason expected))

unfoldable pub postpone_mutation : {F : Type 0} → Job F → String → String → ℤ → ℤ → JobMutation F
postpone_mutation job at_time reason not_before horizon =
    let withdrawn = reject_mutation job at_time reason in
    record withdrawn {
      block_candidate = (raise_not_before withdrawn.block_candidate not_before horizon false).0;
    }

unfoldable pub postpone_event :
    {F : Type 0}
    → String
    → Job F
    → Actor
    → String
    → String
    → String
    → ℤ
    → ℤ
    → String
    → Option String
    → JobEvent
postpone_event job_id job actor at_time reason selected_date not_before horizon expected digest =
    let mutation = postpone_mutation job at_time reason not_before horizon in
    let raised =
      raise_not_before (reject_mutation job at_time reason).block_candidate not_before horizon
        false in
    decision_event proposal_postponed job_id job mutation actor at_time (some reason) (
      ("transition", text "postpone")
      ∷ ("selected_date", text selected_date)
      ∷ ("not_before_minute", num not_before)
      ∷ ("original_proposal_run_id", proposal_run_id_of job)
      ∷ ("original_start_minute", minute_value job.schedule_start_minute)
      ∷ ("original_end_minute", minute_value job.schedule_end_minute)
      ∷ ("expected_proposal_run_id", text expected)
      ∷ ("proposal_digest", text_value digest)
      ∷ ("original_latest_end_minute", num raised.2)
      ∷ ("widened_latest_end_minute", num raised.3)
      ∷ [])

-- `plan_postpone`
unfoldable pub plan_postpone :
    {F : Type 0}
    → String
    → Actor
    → String
    → String
    → String
    → ℤ
    → ℤ
    → String
    → Option String
    → Result (Plan F)
plan_postpone job_id actor at_time reason selected_date not_before horizon expected digest = do
  require_nonblank expected
  require_nonblank reason
  ok (λ rows. do
    job ← lookup job_id rows
    raise_if (not (is_scheduled job.status)) invalid_transition
    require_identified_human actor
    raise_if (not (has_proposal job)) invalid_transition
    raise_if (is_stale (some expected) (proposal_run_id_of job)) stale_proposal
    raise_if (ltb_ℤ not_before (pos 0) || leb_ℤ horizon not_before) invalid_transition
    recorded (postpone_mutation job at_time reason not_before horizon) (
        postpone_event job_id job actor at_time reason selected_date not_before horizon expected
          digest))

-- The new not-before is at least the end of the released window.
unfoldable pub release_mutation :
    {F : Type 0} → Job F → String → String → ℤ → ℤ → String → JobMutation F
release_mutation job at_time reason released_end horizon current_run =
    let withdrawn = reject_mutation job at_time reason in
    record withdrawn {
      block_candidate = (raise_not_before withdrawn.block_candidate released_end horizon true).0;
      release = some (record { proposal_run_id = current_run });
    }

unfoldable pub release_event :
    {F : Type 0} → String → Job F → Actor → String → String → ℤ → ℤ → String → JobEvent
release_event job_id job actor at_time reason released_end horizon current_run =
    let mutation = release_mutation job at_time reason released_end horizon current_run in
    let raised =
      raise_not_before (reject_mutation job at_time reason).block_candidate released_end horizon
        true in
    decision_event block_released job_id job mutation actor at_time (some reason) (
      ("transition", text "release")
      ∷ ("optimization_run_id", text current_run)
      ∷ ("proposal_id", text (proposal_id_for current_run job_id))
      ∷ ("expected_proposal_run_id", text current_run)
      ∷ (released_run_id_key, text current_run)
      ∷ ("released_start_minute", minute_value job.schedule_start_minute)
      ∷ ("released_end_minute", num released_end)
      ∷ ("track_id", text job.track_id)
      ∷ ("section_id", text_value job.block_candidate.section_id)
      ∷ ("previous_earliest_start_minute", num job.block_candidate.earliest_start_minute)
      ∷ ("not_before_minute", num raised.1)
      ∷ ("original_latest_end_minute", num raised.2)
      ∷ ("widened_latest_end_minute", num raised.3)
      ∷ [])

-- The plan inside `plan_release`. The run is `expected`, which equals the job's after the check;
-- `int(released_end)` raises on `None`.
unfoldable pub release_plan : {F : Type 0} → String → Actor → String → String → String → ℤ → Plan F
release_plan job_id actor at_time reason expected horizon rows = do
  job ← lookup job_id rows
  assert_committed_state_consistent (job ∷ [])
  raise_if (not (is_notified job.status)) invalid_transition
  require_identified_human actor
  raise_if (is_stale (some expected) (proposal_run_id_of job)) stale_proposal
  elim job.schedule_end_minute [
    | none ↦ err type_error
    | some released_end ↦
        recorded (release_mutation job at_time reason released_end horizon expected)
          (release_event job_id job actor at_time reason released_end horizon expected)
  ]

-- `plan_release`
unfoldable pub plan_release :
    {F : Type 0} → String → Actor → String → String → String → ℤ → Result (Plan F)
plan_release job_id actor at_time reason expected horizon = do
  require_nonblank expected
  require_nonblank reason
  ok (release_plan job_id actor at_time reason expected horizon)
