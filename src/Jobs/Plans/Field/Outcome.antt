-- ===== src/Jobs/Plans/Field/Outcome.antt =====
-- backend/app/jobs/lifecycle.py: `plan_execution_complete` and `plan_execution_not_completed`. The
-- keyword arguments of a call are a record.
use pashupatastra_sih.Prelude.{
  ℤ, ltb_ℤ, max_ℤ, String, Bool, true, not, ◌||◌, none, some, List, [], ◌∷◌, ◌==◌, map,
}
use pashupatastra_sih.Prelude.Dict.{Dict}
use pashupatastra_sih.Result.{
  Result, ok, ◌>>=◌, ◌>>◌, raise_if, invalid_transition, stale_execution, execution_integrity,
  committed_state_integrity, evidence_validation,
}
use pashupatastra_sih.Contracts.{boolean, Value, num, text, fields, entries}
use pashupatastra_sih.Python.{Platform}
use pashupatastra_sih.Jobs.State.{
  Actor, completed, Job, JobMutation, JobEvent, execution_completed, execution_not_completed,
  complete, not_completed, unchanged, value_eq, proposal_run_id_of, execution_id_of,
  execution_id_key, released_run_id_key,
}
use pashupatastra_sih.Jobs.Guards.{
  is_in_progress, schedule_of, schedule_eq, assert_committed_state_consistent,
}
use pashupatastra_sih.Jobs.Store.{Plan}
use pashupatastra_sih.Jobs.Events.{recorded}
use pashupatastra_sih.Jobs.Execution.Ids.{proposal_id_for}
use pashupatastra_sih.Jobs.Execution.Time.{
  parse_observed_at, canonical_observed_at, require_not_in_future, observed_minute,
}
use pashupatastra_sih.Jobs.Execution.Evidence.{
  EvidenceItem, after_work, work_not_completed, validate_evidence_set, record_evidence,
  captured_moment,
}
use pashupatastra_sih.Jobs.Execution.Records.{ExecutionRecord, is_open}
use pashupatastra_sih.Jobs.Plans.Blocks.{
  raise_not_before, minute_value, require_nonblank, require_identified_human, lookup,
}
use pashupatastra_sih.Jobs.Plans.Human.{is_stale, decision_event, reject_mutation}
use pashupatastra_sih.Jobs.Plans.Field.{int_column, committed_block_digest, observations}

pub record ExecutionEnd : Type 0 where
  pub actor : Actor
  pub at_time : String
  pub execution_id : String
  pub actual_end_at : String
  pub evidence : List EvidenceItem
  pub execution : ExecutionRecord
  pub corridor_id : String
  pub horizon_start : String

-- The supplied record is the job's open execution.
abbrev pub is_current : {F : Type 0} → Job F → String → ExecutionRecord → Bool
is_current job execution_id r = not (
    not (r.job_id == job.job_id)
    || (not (r.execution_id == execution_id)
        || (not (is_open r.status)
            || (not (value_eq (text r.optimization_run_id) (proposal_run_id_of job))
                || (not (r.proposal_id == proposal_id_for r.optimization_run_id job.job_id)
                    || not (
                        schedule_eq (some r.planned_start_minute, some r.planned_end_minute)
                          (schedule_of job)))))))

-- `_open_execution_checks`
unfoldable pub open_execution_checks :
    {F : Type 0} → Platform → Job F → String → ExecutionRecord → String → Result String
open_execution_checks P job execution_id r corridor_id = do
  assert_committed_state_consistent (job ∷ [])
  raise_if (not (is_in_progress job.status)) invalid_transition
  raise_if (is_stale (some execution_id) (execution_id_of job)) stale_execution
  raise_if (not (is_current job execution_id r)) execution_integrity
  digest ← committed_block_digest P job corridor_id r.optimization_run_id
  raise_if (not (digest == r.committed_block_digest)) (committed_state_integrity (job.job_id ∷ []))
  ok digest

-- `_observe_end`
unfoldable pub observe_end : Platform → ExecutionEnd → ℤ → Result (ℤ × ℤ)
observe_end P call now = do
  ended ← parse_observed_at P call.actual_end_at
  require_not_in_future ended now
  began ← captured_moment P call.execution.actual_start_at
  raise_if (ltb_ℤ ended began) evidence_validation
  minute ← observed_minute P ended call.horizon_start true
  ok (ended, minute)

-- `observe` of a completion, and of an outcome that is not one.
unfoldable pub observe_complete : Platform → ExecutionEnd → ℤ → Result ((ℤ × ℤ) × List EvidenceItem)
observe_complete P call now = do
  seen ← observe_end P call now
  began ← captured_moment P call.execution.actual_start_at
  evidence ←
      validate_evidence_set P call.evidence now 1 none (some began)
        (map (λ r. r.item.evidence_reference) call.execution.before_work_evidence)
  ok (seen, evidence)

unfoldable pub observe_not_completed :
    Platform → ExecutionEnd → ℤ → Result ((ℤ × ℤ) × List EvidenceItem)
observe_not_completed P call now = do
  seen ← observe_end P call now
  evidence ← validate_evidence_set P call.evidence now 0 none none []
  ok (seen, evidence)

-- The deviations of an outcome.
abbrev deviations : ExecutionRecord → ℤ → Value
deviations r minute = fields (
    ("started_before_planned_start", boolean r.started_before_planned_start)
    ∷ ("ended_after_planned_end", boolean (ltb_ℤ r.planned_end_minute minute))
    ∷ [])

-- The facts that both outcomes record.
abbrev outcome_facts : Platform → String → ExecutionEnd → ℤ → ℤ → String → Dict Value
outcome_facts P transition call ended minute digest =
    ("transition", text transition)
    ∷ (execution_id_key, text call.execution_id)
    ∷ ("optimization_run_id", text call.execution.optimization_run_id)
    ∷ ("proposal_id", text call.execution.proposal_id)
    ∷ ("committed_block_digest", text digest)
    ∷ ("actual_end_at", text (canonical_observed_at P ended))
    ∷ ("actual_end_minute", num minute)
    ∷ ("deviations", deviations call.execution minute)
    ∷ []

unfoldable pub complete_mutation : {F : Type 0} → Job F → ExecutionEnd → JobMutation F
complete_mutation job call = record (unchanged job) {
  status = completed;
  updated_at = some call.at_time;
  execution = some (record { kind = complete; execution_id = call.execution_id });
}

-- The order of the keys of an event's metadata is that of the canonical JSON, so the one in which
-- they are written is left open.
unfoldable pub complete_event :
    {F : Type 0}
    → Platform
    → String
    → Job F
    → ExecutionEnd
    → ℤ × ℤ
    → List EvidenceItem
    → String
    → JobEvent
complete_event P job_id job call seen evidence digest =
    record (decision_event execution_completed job_id job (complete_mutation job call) call.actor
      call.at_time none
      (("after_work_evidence", entries (record_evidence P evidence after_work))
        ∷ outcome_facts P "execution_complete" call seen.0 seen.1 digest)) {
          optimization_run_id = text call.execution.optimization_run_id;
        }

-- The plan inside `plan_execution_complete`.
unfoldable pub plan_execution_complete : {F : Type 0} → Platform → String → ExecutionEnd → Plan F
plan_execution_complete P job_id call rows = do
  job ← lookup job_id rows
  digest ← open_execution_checks P job call.execution_id call.execution call.corridor_id
  require_identified_human call.actor
  now ← parse_observed_at P call.at_time
  seen ← observations (observe_complete P call now)
  recorded (complete_mutation job call) (complete_event P job_id job call seen.0 seen.1 digest)

-- The earliest minute of the next attempt: the end of the released window or of the work.
unfoldable pub not_completed_mutation :
    {F : Type 0} → Job F → ExecutionEnd → String → ℤ → ℤ → ℤ → JobMutation F
not_completed_mutation job call reason released_end minute horizon =
    let withdrawn = reject_mutation job call.at_time reason in
    record withdrawn {
      block_candidate =
          (raise_not_before withdrawn.block_candidate (max_ℤ released_end minute) horizon true).0;
      execution = some (record { kind = not_completed; execution_id = call.execution_id });
    }

unfoldable pub not_completed_event :
    {F : Type 0}
    → Platform
    → String
    → Job F
    → ExecutionEnd
    → String
    → ℤ
    → ℤ
    → ℤ × ℤ
    → List EvidenceItem
    → String
    → JobEvent
not_completed_event P job_id job call reason released_end horizon seen evidence digest =
    let mutation = not_completed_mutation job call reason released_end seen.1 horizon in
    let raised =
      raise_not_before (reject_mutation job call.at_time reason).block_candidate
        (max_ℤ released_end seen.1) horizon true in
    decision_event execution_not_completed job_id job mutation call.actor call.at_time (some reason)
      (("failure_evidence", entries (record_evidence P evidence work_not_completed))
        ∷ ("released_start_minute", minute_value job.schedule_start_minute)
        ∷ ("released_end_minute", num released_end)
        ∷ (released_run_id_key, proposal_run_id_of job)
        ∷ ("previous_earliest_start_minute", num job.block_candidate.earliest_start_minute)
        ∷ ("not_before_minute", num raised.1)
        ∷ ("original_latest_end_minute", num raised.2)
        ∷ ("widened_latest_end_minute", num raised.3)
        ∷ outcome_facts P "execution_not_completed" call seen.0 seen.1 digest)

-- The plan inside `plan_execution_not_completed`.
unfoldable pub not_completed_plan :
    {F : Type 0} → Platform → String → ExecutionEnd → String → ℤ → Plan F
not_completed_plan P job_id call reason horizon rows = do
  job ← lookup job_id rows
  digest ← open_execution_checks P job call.execution_id call.execution call.corridor_id
  require_identified_human call.actor
  now ← parse_observed_at P call.at_time
  seen ← observations (observe_not_completed P call now)
  released_end ← int_column job.schedule_end_minute
  recorded (not_completed_mutation job call reason released_end seen.0.1 horizon)
      (not_completed_event P job_id job call reason released_end horizon seen.0 seen.1 digest)

-- `plan_execution_not_completed`
unfoldable pub plan_execution_not_completed :
    {F : Type 0} → Platform → String → ExecutionEnd → String → ℤ → Result (Plan F)
plan_execution_not_completed P job_id call reason horizon =
    require_nonblank reason >> ok (not_completed_plan P job_id call reason horizon)
