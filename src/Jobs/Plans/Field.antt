-- ===== src/Jobs/Plans/Field.antt =====
-- backend/app/jobs/lifecycle.py's `_observations` and execution.py's `committed_block_digest`, for the
-- plans of field execution below.
pub mod Start
pub mod Started
pub mod Recorded
pub mod Outcome
pub mod Closed
pub mod Ended
pub mod Concluded
pub mod Failed
pub mod Accepts
pub mod Begun
pub mod Stored
use pashupatastra_sih.Prelude.{
  ℕ, ℤ, pos, ◌-ℤ◌, ltb_ℤ, max_ℤ, suc, String, Bool, true, false, not, ◌||◌, Option, none, some,
  List, [], ◌∷◌, ◌==◌, any, length, map,
}
use pashupatastra_sih.Prelude.Dict.{Dict, put}
use pashupatastra_sih.Result.{
  Result, ok, err, ◌>>=◌, ◌>>◌, raise_if, invalid_transition, stale_proposal, stale_execution,
  execution_integrity, committed_state_integrity, type_error, evidence_validation,
}
use pashupatastra_sih.Contracts.{Scalar, boolean, Value, num, text, fields, entries}
use pashupatastra_sih.Python.{Platform}
use pashupatastra_sih.Jobs.State.{
  Actor, in_progress, completed, Job, JobMutation, JobEvent, execution_started, execution_completed,
  execution_not_completed, start, complete, not_completed, unchanged, as_job, value_eq,
  proposal_run_id_of, execution_id_of, execution_id_key, released_run_id_key,
}
use pashupatastra_sih.Jobs.Guards.{
  is_notified, is_in_progress, schedule_of, schedule_eq, assert_committed_state_consistent,
}
use pashupatastra_sih.Jobs.Store.{Plan}
use pashupatastra_sih.Jobs.Execution.Ids.{is_execution_id, proposal_id_for}
use pashupatastra_sih.Jobs.Execution.Time.{
  parse_observed_at, canonical_observed_at, require_not_in_future, observed_minute,
}
use pashupatastra_sih.Jobs.Execution.Evidence.{
  EvidenceItem, before_work, after_work, work_not_completed, validate_evidence_set, record_evidence,
  captured_moment, references,
}
use pashupatastra_sih.Jobs.Execution.Records.{ExecutionRecord, is_open}
use pashupatastra_sih.Jobs.Plans.Blocks.{
  raise_not_before, minute_value, text_value, require_nonblank, require_identified_human, lookup,
}
use pashupatastra_sih.Jobs.Plans.Human.{is_stale, decision_event, reject_mutation}

-- `int(value)` of a schedule column.
abbrev pub int_column : Option ℤ → Result ℤ
int_column none = err type_error
int_column (some n) = ok n

-- `block_identity_digest`
unfoldable pub block_identity_digest :
    Platform
    → String
    → String
    → String
    → String
    → String
    → Option String
    → ℤ
    → ℤ
    → ℤ
    → String
    → String
block_identity_digest P proposal_id job_id run corridor_id track_id section_id start_minute
      end_minute duration work_type =
    P.sha256_json (
      ("proposal_id", text proposal_id)
      ∷ ("job_id", text job_id)
      ∷ ("optimization_run_id", text run)
      ∷ ("corridor_id", text corridor_id)
      ∷ ("track_id", text track_id)
      ∷ ("section_id", text_value section_id)
      ∷ ("start_minute", num start_minute)
      ∷ ("end_minute", num end_minute)
      ∷ ("duration_minutes", num duration)
      ∷ ("work_type", text work_type)
      ∷ [])

-- `committed_block_digest`
unfoldable pub committed_block_digest :
    {F : Type 0} → Platform → Job F → String → String → Result String
committed_block_digest P job corridor_id run = do
  start_minute ← int_column job.schedule_start_minute
  end_minute ← int_column job.schedule_end_minute
  ok (
      block_identity_digest P (proposal_id_for run job.job_id) job.job_id run corridor_id
        job.track_id job.block_candidate.section_id start_minute end_minute
        (end_minute -ℤ start_minute) job.work_type)

-- `_observations`
abbrev pub observations {ℓ} : {A : Type ℓ} → Result A → Result A
observations (err evidence_validation) = err invalid_transition
observations r = r
