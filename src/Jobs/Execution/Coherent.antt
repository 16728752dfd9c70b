-- ===== src/Jobs/Execution/Coherent.antt =====
-- What the records of execution.py should look like.
pub mod Put
pub mod Rounds
pub mod Derived
use pashupatastra_sih.Prelude.{
  ℕ, suc, ◌+◌, ℤ, pos, ◌<ℤ◌, leb_ℤ, ltb_ℤ, eqb_ℤ, eqb_ℤ_sound, String, Bool, true, false, not, ◌||◌,
  List, [], ◌∷◌, ◌++◌, Option, none, some, ◌≡◌, ◌≢◌, refl, sym, ap, ◌∙◌, subst, ==_iff, ◌==◌, any,
  find, find-some, keep, length, All, arith, inl, inr, ◌⊎◌, Bool-cases, not-eq_false,
  some_injective,
}
use pashupatastra_sih.Result.{
  Result, ok, err, ◌>>=◌, ◌>>◌, >>=-eq-ok, >>-eq-ok, raise_if, raise_if-ok, ok_injective,
  execution_integrity, Holds, Holds-ok, Holds->>=, Holds->>,
}
use pashupatastra_sih.Contracts.{Value, text}
use pashupatastra_sih.Python.{Platform}
use pashupatastra_sih.Jobs.State.{Job, JobEvent, value_eq, execution_id_of, execution_id_key}
use pashupatastra_sih.Jobs.Values.{value_eq_sound}
use pashupatastra_sih.Jobs.Guards.{is_empty, is_in_progress}
use pashupatastra_sih.Jobs.Validation.{is_execution_event}
use pashupatastra_sih.Jobs.Execution.Ids.{is_execution_id, proposal_id_for}
use pashupatastra_sih.Jobs.Execution.Evidence.{
  RecordedEvidence, before_work, after_work, work_not_completed, captured_moment,
}
use pashupatastra_sih.Jobs.Execution.Records.{
  ExecutionRecord, ExecutionStatus, started, ended_complete, ended_not_complete, is_open,
  is_ended_complete, blocks_start, read_text, read_int, read_timestamp, read_evidence,
  read_optional_text, read_deviation, started_record, close_record, given_reason, outcome_record,
  ended_record, put_record, read_run, follow, read_event, read_events, open_records, row_agrees,
  build_execution_records, is_completed_event, is_started_event,
}

-- An execution and a later one of the same job.
pub record Follows (r s : ExecutionRecord) : Type 0 where
  pub gave_up : r.status ≡ ended_not_complete
  pub new_id : r.execution_id ≢ s.execution_id
  pub new_run : r.optimization_run_id ≢ s.optimization_run_id

-- Each record stands to all later ones as `Follows` says.
abbrev pub Ordered : List ExecutionRecord → Type 0
Ordered [] = Unit
Ordered (r ∷ rs) = All (Follows r) rs × Ordered rs

-- The attempts are counted from `n`.
abbrev pub Numbered : ℕ → List ExecutionRecord → Type 0
Numbered n [] = Unit
Numbered n (r ∷ rs) = (r.attempt_number ≡ pos n) × Numbered (suc n) rs

-- The facts of one record about the job.
pub record Sound (job_id : String) (r : ExecutionRecord) : Type 0 where
  pub of_job : r.job_id ≡ job_id
  pub window : r.planned_start_minute <ℤ r.planned_end_minute
  pub shown : is_empty r.before_work_evidence ≡ false
  pub proved : r.status ≡ ended_complete → is_empty r.after_work_evidence ≡ false

pub record Coherent (job_id : String) (rs : List ExecutionRecord) : Type 0 where
  pub ordered : Ordered rs
  pub numbered : Numbered 1 rs
  pub sound : All (Sound job_id) rs

-- What two states of one execution share.
pub record SameExecution (r s : ExecutionRecord) : Type 0 where
  pub same_id : r.execution_id ≡ s.execution_id
  pub same_run : r.optimization_run_id ≡ s.optimization_run_id
  pub same_attempt : r.attempt_number ≡ s.attempt_number
