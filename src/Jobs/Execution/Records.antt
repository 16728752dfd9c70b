-- ===== src/Jobs/Execution/Records.antt =====
-- The execution records of backend/app/jobs/execution.py. `by_id` and `order` of the source are one
-- list here, of the records in the order of their starts; a record's fields stand for its state.
use pashupatastra_sih.Prelude.{
  ℤ, pos, ltb_ℤ, leb_ℤ, eqb_ℤ, suc, Bool, true, false, not, ◌||◌, Option, none, some, List, [], ◌∷◌,
  ◌++◌, String, ◌==◌, any, keep, find, length, if◌then◌else◌,
}
use pashupatastra_sih.Prelude.Blank.{is_blank}
use pashupatastra_sih.Prelude.Dict.{Dict, get}
use pashupatastra_sih.Result.{Result, ok, err, ◌>>=◌, ◌>>◌, raise_if, execution_integrity}
use pashupatastra_sih.Contracts.{Scalar, boolean, Value, null, num, text, fields, entries}
use pashupatastra_sih.Python.{Platform}
use pashupatastra_sih.Jobs.State.{
  Actor, Job, JobEvent, JobEventType, execution_started, execution_completed, execution_id_key,
  execution_id_of, value_eq,
}
use pashupatastra_sih.Jobs.Guards.{is_in_progress, is_empty}
use pashupatastra_sih.Jobs.Validation.{is_execution_event}
use pashupatastra_sih.Jobs.Execution.Ids.{is_execution_id, proposal_id_for}
use pashupatastra_sih.Jobs.Execution.Time.{parse_observed_at, canonical_observed_at}
use pashupatastra_sih.Jobs.Execution.Evidence.{
  RecordedEvidence, EvidencePhase, before_work, after_work, work_not_completed, phase_eq, from_dict,
  captured_moment,
}

pub data ExecutionStatus : Type 0 where
  started ended_complete ended_not_complete : ExecutionStatus

pub record ExecutionRecord : Type 0 where
  pub execution_id : String
  pub job_id : String
  pub attempt_number : ℤ
  pub optimization_run_id : String
  pub proposal_id : String
  pub track_id : String
  pub section_id : Option String
  pub planned_start_minute : ℤ
  pub planned_end_minute : ℤ
  pub committed_block_digest : String
  pub status : ExecutionStatus
  pub started_by : Actor
  pub started_recorded_at : String
  pub actual_start_at : String
  pub actual_start_minute : ℤ
  pub before_work_evidence : List RecordedEvidence
  pub ended_by : Option Actor
  pub ended_recorded_at : Option String
  pub actual_end_at : Option String
  pub actual_end_minute : Option ℤ
  pub after_work_evidence : List RecordedEvidence
  pub not_completed_reason : Option String
  pub failure_evidence : List RecordedEvidence
  pub started_before_planned_start : Bool
  pub ended_after_planned_end : Option Bool

-- `is_open`
abbrev pub is_open : ExecutionStatus → Bool
is_open started = true
is_open _ = false

abbrev pub is_ended_complete : ExecutionStatus → Bool
is_ended_complete ended_complete = true
is_ended_complete _ = false

-- The result of a check inside the reader: any other exception is an integrity error.
abbrev pub integrity {ℓ} : {A : Type ℓ} → Result A → Result A
integrity (ok a) = ok a
integrity (err e) = err execution_integrity

-- `_Reader.get(key, str)`
unfoldable pub read_text : String → JobEvent → Result String
read_text k e = elim (get k e.metadata) [
  | some (text s) ↦ raise_if (s == "") execution_integrity >> ok s
  | _ ↦ err execution_integrity
]

-- `_Reader.get(key, str, optional=True)`
unfoldable pub read_optional_text : String → JobEvent → Result (Option String)
read_optional_text k e = elim (get k e.metadata) [
  | some null ↦ ok none
  | some (text s) ↦ raise_if (s == "") execution_integrity >> ok (some s)
  | _ ↦ err execution_integrity
]

-- `_Reader.get(key, int)`
unfoldable pub read_int : String → JobEvent → Result ℤ
read_int k e = elim (get k e.metadata) [ some (num n) ↦ ok n | _ ↦ err execution_integrity ]

-- `_Reader.timestamp`
unfoldable pub read_timestamp : Platform → String → JobEvent → Result String
read_timestamp P k e = do
  value ← read_text k e
  moment ← integrity (parse_observed_at P value)
  raise_if (not (canonical_observed_at P moment == value)) execution_integrity
  ok value

-- The dicts that `RecordedEvidence.from_dict` rebuilds.
unfoldable pub rebuild : Platform → List (Dict Scalar) → Result (List RecordedEvidence)
rebuild P [] = ok []
rebuild P (d ∷ ds) = do r ← from_dict P d; rs ← rebuild P ds; ok (r ∷ rs)

-- `_Reader.evidence`
unfoldable pub read_evidence :
    Platform → String → EvidencePhase → JobEvent → Result (List RecordedEvidence)
read_evidence P k phase e = elim (get k e.metadata) [
  | some (entries raw) ↦ do
    items ← integrity (rebuild P raw)
    raise_if (any (λ i. not (phase_eq i.phase phase)) items) execution_integrity
    ok items
  | _ ↦ err execution_integrity
]

-- `_Reader.deviation`
unfoldable pub read_deviation : String → JobEvent → Result Bool
read_deviation k e = elim (get "deviations" e.metadata) [
  | some (fields d) ↦ elim (get k d) [ some (boolean b) ↦ ok b | _ ↦ err execution_integrity ]
  | _ ↦ err execution_integrity
]

-- A previous execution refuses the start of a new one of the run.
abbrev pub blocks_start : String → ExecutionRecord → Bool
blocks_start run r =
    is_open r.status || (is_ended_complete r.status || r.optimization_run_id == run)

-- `_started`
unfoldable pub started_record :
    Platform → String → JobEvent → String → String → List ExecutionRecord → Result ExecutionRecord
started_record P job_id e execution_id run order = do
  raise_if (any (λ r. r.execution_id == execution_id) order) execution_integrity
  raise_if (any (blocks_start run) order) execution_integrity
  attempt_number ← read_int "attempt_number" e
  raise_if (not (eqb_ℤ attempt_number (pos (suc (length order))))) execution_integrity
  planned_start ← read_int "planned_start_minute" e
  planned_end ← read_int "planned_end_minute" e
  raise_if (leb_ℤ planned_end planned_start) execution_integrity
  digest ← read_text "committed_block_digest" e
  actual_start_at ← read_timestamp P "actual_start_at" e
  actual_start_minute ← read_int "actual_start_minute" e
  before ← read_evidence P "before_work_evidence" before_work e
  raise_if (is_empty before) execution_integrity
  proposal_id ← read_text "proposal_id" e
  track_id ← read_text "track_id" e
  section_id ← read_optional_text "section_id" e
  early ← read_deviation "started_before_planned_start" e
  ok (record {
    execution_id = execution_id;
    job_id = job_id;
    attempt_number = attempt_number;
    optimization_run_id = run;
    proposal_id = proposal_id;
    track_id = track_id;
    section_id = section_id;
    planned_start_minute = planned_start;
    planned_end_minute = planned_end;
    committed_block_digest = digest;
    status = started;
    started_by = e.actor;
    started_recorded_at = e.occurred_at;
    actual_start_at = actual_start_at;
    actual_start_minute = actual_start_minute;
    before_work_evidence = before;
    ended_by = none;
    ended_recorded_at = none;
    actual_end_at = none;
    actual_end_minute = none;
    after_work_evidence = [];
    not_completed_reason = none;
    failure_evidence = [];
    started_before_planned_start = early;
    ended_after_planned_end = none;
  })

-- `not isinstance(reason, str) or not reason.strip()`, or the reason.
abbrev pub given_reason : Option String → Result String
given_reason none = err execution_integrity
given_reason (some s) = raise_if (is_blank s) execution_integrity >> ok s

abbrev pub is_completed_event : JobEventType → Bool
is_completed_event execution_completed = true
is_completed_event _ = false

-- The end of `_ended`: what depends on the kind of the outcome.
unfoldable pub outcome_record :
    Platform → JobEvent → ExecutionRecord → Bool → Result ExecutionRecord
outcome_record P e r true = do
  after ← read_evidence P "after_work_evidence" after_work e
  raise_if (is_empty after) execution_integrity
  ok (record r { after_work_evidence = after; status = ended_complete })
outcome_record P e r false = do
  reason ← given_reason e.reason
  failure ← read_evidence P "failure_evidence" work_not_completed e
  ok (record r {
    not_completed_reason = some reason;
    failure_evidence = failure;
    status = ended_not_complete;
  })

-- `_ended`
unfoldable pub ended_record : Platform → JobEvent → ExecutionRecord → Result ExecutionRecord
ended_record P e r = do
  digest ← read_text "committed_block_digest" e
  raise_if (not (digest == r.committed_block_digest)) execution_integrity
  actual_end_at ← read_timestamp P "actual_end_at" e
  ended ← captured_moment P actual_end_at
  began ← captured_moment P r.actual_start_at
  raise_if (ltb_ℤ ended began) execution_integrity
  minute ← read_int "actual_end_minute" e
  late ← read_deviation "ended_after_planned_end" e
  outcome_record P e
      (record r {
        actual_end_at = some actual_end_at;
        actual_end_minute = some minute;
        ended_by = some e.actor;
        ended_recorded_at = some e.occurred_at;
        ended_after_planned_end = some late;
      })
      (is_completed_event e.event_type)

-- The record of the execution is changed in place.
unfoldable pub put_record : ExecutionRecord → List ExecutionRecord → List ExecutionRecord
put_record new [] = []
put_record new (r ∷ rs) =
    if r.execution_id == new.execution_id then new ∷ rs else r ∷ put_record new rs

-- The run that the event names, where its metadata agrees.
unfoldable pub read_run : JobEvent → Result String
read_run e = elim e.optimization_run_id [
  | text run ↦ do
    raise_if (run == "") execution_integrity
    named ← read_text "optimization_run_id" e
    raise_if (not (named == run)) execution_integrity
    ok run
  | _ ↦ err execution_integrity
]

abbrev pub is_started_event : JobEventType → Bool
is_started_event execution_started = true
is_started_event _ = false

-- The outcome of the execution that was found.
unfoldable pub close_record :
    Platform
    → JobEvent
    → String
    → List ExecutionRecord
    → Option ExecutionRecord
    → Result (List ExecutionRecord)
close_record P e run order none = err execution_integrity
close_record P e run order (some r) = do
  raise_if (not (is_open r.status)) execution_integrity
  raise_if (not (run == r.optimization_run_id)) execution_integrity
  new ← ended_record P e r
  ok (put_record new order)

-- What follows the checks on the ids: a start, or the outcome of an execution.
unfoldable pub follow :
    Platform
    → String
    → JobEvent
    → String
    → String
    → List ExecutionRecord
    → Bool
    → Result (List ExecutionRecord)
follow P job_id e execution_id run order true = do
  r ← started_record P job_id e execution_id run order
  ok (order ++ (r ∷ []))
follow P job_id e execution_id run order false =
    close_record P e run order (find (λ r. r.execution_id == execution_id) order)

-- One round of the loop of `build_execution_records`.
unfoldable pub read_event :
    Platform → String → JobEvent → List ExecutionRecord → Result (List ExecutionRecord)
read_event P job_id e order = if not (is_execution_event e.event_type) then ok order else do
  raise_if (not (e.job_id == job_id)) execution_integrity
  execution_id ← read_text execution_id_key e
  raise_if (not (is_execution_id execution_id)) execution_integrity
  run ← read_run e
  proposal ← read_text "proposal_id" e
  raise_if (not (proposal == proposal_id_for run job_id)) execution_integrity
  follow P job_id e execution_id run order (is_started_event e.event_type)

unfoldable pub read_events :
    Platform → String → List ExecutionRecord → List JobEvent → Result (List ExecutionRecord)
read_events P job_id order [] = ok order
read_events P job_id order (e ∷ es) = do
  next ← read_event P job_id e order
  read_events P job_id next es

abbrev pub open_records : List ExecutionRecord → List ExecutionRecord
open_records rs = keep (λ r. is_open r.status) rs

-- The open executions agree with the row.
abbrev pub row_agrees : Bool → Value → List ExecutionRecord → Bool
row_agrees true named [] = false
row_agrees true named (r ∷ []) = value_eq (text r.execution_id) named
row_agrees true named (r ∷ s ∷ rs) = false
row_agrees false named rs = is_empty rs

-- `build_execution_records`
unfoldable pub build_execution_records :
    {F : Type 0} → Platform → Job F → List JobEvent → Result (List ExecutionRecord)
build_execution_records P j events = do
  records ← read_events P j.job_id [] events
  raise_if (not (row_agrees (is_in_progress j.status) (execution_id_of j) (open_records records)))
      execution_integrity
  ok records
