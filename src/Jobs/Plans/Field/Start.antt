-- ===== src/Jobs/Plans/Field/Start.antt =====
-- backend/app/jobs/lifecycle.py: `plan_execution_start`. The keyword arguments of a call are a record.
use pashupatastra_sih.Prelude.{
  ℤ, pos, ltb_ℤ, suc, String, Bool, false, not, ◌||◌, none, some, List, [], ◌∷◌, ◌==◌, any, length,
}
use pashupatastra_sih.Prelude.Dict.{put}
use pashupatastra_sih.Result.{
  Result, ok, ◌>>=◌, ◌>>◌, raise_if, invalid_transition, stale_proposal, execution_integrity,
}
use pashupatastra_sih.Contracts.{boolean, num, text, fields, entries}
use pashupatastra_sih.Python.{Platform}
use pashupatastra_sih.Jobs.State.{
  Actor, in_progress, Job, JobMutation, JobEvent, execution_started, start, unchanged,
  proposal_run_id_of, execution_id_key,
}
use pashupatastra_sih.Jobs.Guards.{is_notified, assert_committed_state_consistent}
use pashupatastra_sih.Jobs.Store.{Plan}
use pashupatastra_sih.Jobs.Events.{recorded}
use pashupatastra_sih.Jobs.Execution.Ids.{is_execution_id, proposal_id_for}
use pashupatastra_sih.Jobs.Execution.Time.{
  parse_observed_at, canonical_observed_at, require_not_in_future, observed_minute,
}
use pashupatastra_sih.Jobs.Execution.Evidence.{
  EvidenceItem, before_work, validate_evidence_set, record_evidence,
}
use pashupatastra_sih.Jobs.Execution.Records.{ExecutionRecord, is_open}
use pashupatastra_sih.Jobs.Plans.Blocks.{
  minute_value, text_value, require_nonblank, require_identified_human, lookup,
}
use pashupatastra_sih.Jobs.Plans.Human.{is_stale, decision_event}
use pashupatastra_sih.Jobs.Plans.Field.{int_column, committed_block_digest, observations}

pub record ExecutionStart : Type 0 where
  pub actor : Actor
  pub at_time : String
  pub execution_id : String
  pub expected_proposal_run_id : String
  pub actual_start_at : String
  pub before_work_evidence : List EvidenceItem
  pub corridor_id : String
  pub previous_executions : List ExecutionRecord
  pub horizon_start : String

-- A previous execution contradicts a start of the run.
abbrev pub contradicts_start : String → String → String → ExecutionRecord → Bool
contradicts_start job_id execution_id run r =
    not (r.job_id == job_id)
    || (is_open r.status || (r.execution_id == execution_id || r.optimization_run_id == run))

-- `observe` of the start: the moment and the evidence.
unfoldable pub observe_start : Platform → ExecutionStart → ℤ → Result (ℤ × List EvidenceItem)
observe_start P call now = do
  began ← parse_observed_at P call.actual_start_at
  require_not_in_future began now
  evidence ← validate_evidence_set P call.before_work_evidence now 1 (some began) none []
  ok (began, evidence)

unfoldable pub start_mutation : {F : Type 0} → Job F → ExecutionStart → JobMutation F
start_mutation job call = record (unchanged job) {
  status = in_progress;
  updated_at = some call.at_time;
  block_candidate = record job.block_candidate {
    metadata = put execution_id_key (text call.execution_id) job.block_candidate.metadata;
  };
  execution = some (record { kind = start; execution_id = call.execution_id });
}

unfoldable pub start_event :
    {F : Type 0}
    → Platform
    → String
    → Job F
    → ExecutionStart
    → ℤ
    → List EvidenceItem
    → ℤ
    → ℤ
    → String
    → JobEvent
start_event P job_id job call began evidence minute planned_start digest =
    let run = call.expected_proposal_run_id in
    decision_event execution_started job_id job (start_mutation job call) call.actor call.at_time
      none
      (("transition", text "execution_start")
        ∷ (execution_id_key, text call.execution_id)
        ∷ ("attempt_number", num (pos (suc (length call.previous_executions))))
        ∷ ("optimization_run_id", text run)
        ∷ ("proposal_id", text (proposal_id_for run job_id))
        ∷ ("expected_proposal_run_id", text run)
        ∷ ("corridor_id", text call.corridor_id)
        ∷ ("track_id", text job.track_id)
        ∷ ("section_id", text_value job.block_candidate.section_id)
        ∷ ("planned_start_minute", num planned_start)
        ∷ ("planned_end_minute", minute_value job.schedule_end_minute)
        ∷ ("committed_block_digest", text digest)
        ∷ ("horizon_start", text call.horizon_start)
        ∷ ("actual_start_at", text (canonical_observed_at P began))
        ∷ ("actual_start_minute", num minute)
        ∷ ("before_work_evidence", entries (record_evidence P evidence before_work))
        ∷ (
          "deviations",
          fields (("started_before_planned_start", boolean (ltb_ℤ minute planned_start)) ∷ []),
        )
        ∷ [])

-- The plan inside `plan_execution_start`. The run is the expected one, which equals the job's after
-- the check; comparing a minute with a start that is None raises.
unfoldable pub plan_execution_start : {F : Type 0} → Platform → String → ExecutionStart → Plan F
plan_execution_start P job_id call rows = do
  job ← lookup job_id rows
  assert_committed_state_consistent (job ∷ [])
  raise_if (not (is_notified job.status)) invalid_transition
  require_identified_human call.actor
  require_nonblank call.expected_proposal_run_id
  raise_if (is_stale (some call.expected_proposal_run_id) (proposal_run_id_of job)) stale_proposal
  raise_if (not (is_execution_id call.execution_id)) invalid_transition
  raise_if
      (any (contradicts_start job_id call.execution_id call.expected_proposal_run_id)
        call.previous_executions)
      execution_integrity
  now ← parse_observed_at P call.at_time
  seen ← observations (observe_start P call now)
  minute ← observations (observed_minute P seen.0 call.horizon_start false)
  digest ← committed_block_digest P job call.corridor_id call.expected_proposal_run_id
  planned_start ← int_column job.schedule_start_minute
  recorded (start_mutation job call)
      (start_event P job_id job call seen.0 seen.1 minute planned_start digest)
