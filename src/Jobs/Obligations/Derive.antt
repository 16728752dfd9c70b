-- ===== src/Jobs/Obligations/Derive.antt =====
-- The derivation of backend/app/jobs/obligations.py: what each status of a job makes of its history,
-- and the entry points.
use pashupatastra_sih.Prelude.{
  Bool, true, false, not, ◌&&◌, ◌||◌, Option, none, some, List, [], ◌∷◌, if◌then◌else◌, String,
  ◌==◌, any, is_some, map,
}
use pashupatastra_sih.Result.{
  Result, ok, err, ◌>>=◌, ◌>>◌, raise_if, value_error, obligation_integrity,
}
use pashupatastra_sih.Contracts.{Value, null, text, truthy}
use pashupatastra_sih.Python.{Platform, Datetime, Durations}
use pashupatastra_sih.Jobs.State.{
  Job, JobEvent, JobStatus, reported, scheduled, notified, in_progress, completed, worker, engineer,
  authority, value_eq, get_value, execution_id_key, proposal_run_id_of,
}
use pashupatastra_sih.Jobs.Execution.Records.{
  ExecutionRecord, open_records, build_execution_records,
}
use pashupatastra_sih.Jobs.SlaPolicy.{SlaPolicy, SlaPolicySet, resolve_sla}
use pashupatastra_sih.Jobs.Obligations.{
  StoredJobEvent, no_obligation, approval_pending, execution_start_pending, completion_pending,
  replanning_pending, nothing_owed, moot, no_sla_defined, no_obligation_terminal,
  no_obligation_awaiting_optimization, approval_awaiting_authority, approval_withdrawn_by_system,
  execution_awaiting_start, completion_awaiting_outcome, replanning_after_release,
  replanning_after_not_completed, AttentionReason, conflicting_block, integrity_refusal_recorded,
  JobObligation, is_placement, is_approval_response, is_system_withdrawal, is_replanning_trigger,
  is_block_committed, is_block_released, is_conflict, is_transition_rejected, is_execution_start,
  is_integrity_error, last_of, first_of, events_after, events_since,
}
use pashupatastra_sih.Jobs.Obligations.Clock.{Due, timed, Settled, untimed}

abbrev pub is_null : Value → Bool
is_null null = true
is_null _ = false

-- The event is of the run.
abbrev pub of_run : Value → JobEvent → Bool
of_run run e = value_eq e.optimization_run_id run

-- The event, or `ObligationIntegrityError` where there is none.
abbrev pub present : Option StoredJobEvent → Result StoredJobEvent
present none = err obligation_integrity
present (some s) = ok s

-- An answer to the proposal of the run, or its withdrawal.
abbrev pub settles : Value → JobEvent → Bool
settles run e =
    of_run run e && (is_approval_response e.event_type || is_system_withdrawal e.event_type)

-- `_approval`
unfoldable pub approval : {F G : Type 0} → SlaPolicy F → Job G → List StoredJobEvent → Result Due
approval policy job events = do
  let run = proposal_run_id_of job
  raise_if (is_null run) obligation_integrity
  anchor ← present (last_of (λ e. of_run run e && is_placement e.event_type) events)
  after ← events_after anchor.event_id events
  raise_if (any (λ s. settles run s.event) after) obligation_integrity
  ok (record {
    obligation_type = approval_pending;
    owed_role = authority;
    sla = policy.approval_sla;
    anchor = anchor;
    reason_code = approval_awaiting_authority;
    optimization_run_id = run;
  })

-- `_execution_start`
unfoldable pub execution_start :
    {F G : Type 0} → SlaPolicy F → Job G → List StoredJobEvent → Result Due
execution_start policy job events = do
  let run = proposal_run_id_of job
  raise_if (is_null run) obligation_integrity
  anchor ← present (last_of (λ e. of_run run e && is_block_committed e.event_type) events)
  ok (record {
    obligation_type = execution_start_pending;
    owed_role = worker;
    sla = policy.execution_start_sla;
    anchor = anchor;
    reason_code = execution_awaiting_start;
    optimization_run_id = run;
  })

-- The one open record, or `ObligationIntegrityError`.
abbrev pub only : List ExecutionRecord → Result ExecutionRecord
only (r ∷ []) = ok r
only _ = err obligation_integrity

-- `_completion`
unfoldable pub completion :
    {F : Type 0} → SlaPolicy F → List StoredJobEvent → List ExecutionRecord → Result Due
completion policy events records = do
  r ← only (open_records records)
  anchor ← present (
      last_of
        (λ e.
          is_execution_start e.event_type
          && value_eq (get_value execution_id_key e.metadata) (text r.execution_id))
        events)
  raise_if (not (anchor.event.occurred_at == r.started_recorded_at)) obligation_integrity
  ok (record {
    obligation_type = completion_pending;
    owed_role = worker;
    sla = policy.completion_sla;
    anchor = anchor;
    reason_code = completion_awaiting_outcome;
    optimization_run_id = text r.optimization_run_id;
  })

-- A block that was approved ended without its work.
abbrev pub replanning : StoredJobEvent → Settled
replanning s = record {
  obligation_type = replanning_pending;
  state = no_sla_defined;
  owed_role = some engineer;
  anchor = some s;
  reason_code =
      if is_block_released s.event.event_type
      then replanning_after_release
      else replanning_after_not_completed;
  optimization_run_id = s.event.optimization_run_id;
}

-- The proposal was withdrawn before it was answered.
abbrev pub withdrawn_proposal : StoredJobEvent → StoredJobEvent → Settled
withdrawn_proposal placement withdrawal =
    let run = get_value "withdrawn_proposal_run_id" withdrawal.event.metadata in
    record {
      obligation_type = approval_pending;
      state = moot;
      owed_role = none;
      anchor = some placement;
      reason_code = approval_withdrawn_by_system;
      optimization_run_id = if truthy run then run else placement.event.optimization_run_id;
    }

abbrev pub awaiting_optimization : Settled
awaiting_optimization = record {
  obligation_type = no_obligation;
  state = nothing_owed;
  owed_role = none;
  anchor = none;
  reason_code = no_obligation_awaiting_optimization;
  optimization_run_id = null;
}

-- `withdrawal`: the first one after the placement, where nobody has answered.
abbrev pub withdrawal_of : List StoredJobEvent → Option StoredJobEvent
withdrawal_of recent = elim (last_of (λ e. is_approval_response e.event_type) recent) [
  | some answered ↦ none
  | none ↦ first_of (λ e. is_system_withdrawal e.event_type) recent
]

-- The end of `_reported`: the proposal that was withdrawn, if there is one.
abbrev pub withdrawn_or_awaiting : Option StoredJobEvent → Option StoredJobEvent → Settled
withdrawn_or_awaiting placement none = awaiting_optimization
withdrawn_or_awaiting none (some w) = awaiting_optimization
withdrawn_or_awaiting (some p) (some w) = withdrawn_proposal p w

-- `_reported`, of the last event that asks for replanning since the last placement.
abbrev pub reported_from :
    Option StoredJobEvent → Option StoredJobEvent → List StoredJobEvent → Settled
reported_from (some s) placement recent = replanning s
reported_from none placement recent = withdrawn_or_awaiting placement (withdrawal_of recent)

-- `_reported`
unfoldable pub reported_obligation : List StoredJobEvent → Result Settled
reported_obligation events = do
  let placement = last_of (λ e. is_placement e.event_type) events
  recent ← events_since placement events
  ok (reported_from (last_of (λ e. is_replanning_trigger e.event_type) recent) placement recent)

-- The obligation of a completed job.
abbrev pub terminal : Settled
terminal = record awaiting_optimization { reason_code = no_obligation_terminal }

-- What a job owes: on a clock, or without one.
pub data Owed : Type 0 where
  clocked : (due : Due) → Owed
  unclocked : (settled : Settled) → Owed

abbrev pub on_clock : Result Due → Result Owed
on_clock due = due >>= λ d. ok (clocked d)

-- `execution_records`, rebuilt where they are not given.
abbrev pub records_of :
    {G : Type 0}
    → Platform
    → Job G
    → List StoredJobEvent
    → Option (List ExecutionRecord)
    → Result (List ExecutionRecord)
records_of P job events none = build_execution_records P job (map (λ s. s.event) events)
records_of P job events (some records) = ok records

-- The branches of `derive_job_obligation` on the status.
unfoldable pub owed_by :
    {F G : Type 0}
    → Platform
    → SlaPolicy F
    → Job G
    → List StoredJobEvent
    → Option (List ExecutionRecord)
    → JobStatus
    → Result Owed
owed_by P policy job events records scheduled = on_clock (approval policy job events)
owed_by P policy job events records notified = on_clock (execution_start policy job events)
owed_by P policy job events records in_progress =
    records_of P job events records >>= λ rs. on_clock (completion policy events rs)
owed_by P policy job events records reported = reported_obligation events >>= λ s. ok (unclocked s)
owed_by P policy job events records completed = ok (unclocked terminal)

abbrev pub owed_of :
    {F G : Type 0}
    → Platform
    → SlaPolicy F
    → Job G
    → List StoredJobEvent
    → Option (List ExecutionRecord)
    → Result Owed
owed_of P policy job events records = owed_by P policy job events records job.status

abbrev pub anchor_of : Owed → Option StoredJobEvent
anchor_of (clocked due) = some due.anchor
anchor_of (unclocked s) = s.anchor

-- The integrity refusal that the history ends with, if it ends with one.
unfoldable pub last_refusal : List StoredJobEvent → Option (AttentionReason × String)
last_refusal [] = none
last_refusal (s ∷ []) =
    if is_transition_rejected s.event.event_type
      && is_integrity_error (get_value "error_type" s.event.metadata)
    then some (integrity_refusal_recorded, s.event_id)
    else none
last_refusal (s ∷ t ∷ events) = last_refusal (t ∷ events)

-- `_attention`
unfoldable pub attention :
    List StoredJobEvent → Option StoredJobEvent → Result (Option (AttentionReason × String))
attention events since = do
  recent ← events_since since events
  ok (elim (last_of (λ e. is_conflict e.event_type) recent) [
    | some s ↦ some (conflicting_block, s.event_id)
    | none ↦ last_refusal events
  ])

-- `replace(obligation, attention_required=True, ...)`
abbrev pub attend : JobObligation → Option (AttentionReason × String) → JobObligation
attend o none = o
attend o (some seen) = record o {
  attention_reason_code = some seen.0;
  attention_event_id = some seen.1;
  attention_role = some engineer;
}

unfoldable pub obligation_at :
    {F : Type 0}
    → Platform
    → Durations F
    → SlaPolicy F
    → String
    → Owed
    → Datetime
    → Result JobObligation
obligation_at P D policy job_id (clocked due) evaluated_at =
    timed P D policy job_id due evaluated_at
obligation_at P D policy job_id (unclocked s) evaluated_at =
    ok (untimed P policy job_id s evaluated_at)

-- `derive_job_obligation`
unfoldable pub derive_job_obligation :
    {F G : Type 0}
    → Platform
    → Durations F
    → SlaPolicySet F
    → Job G
    → List StoredJobEvent
    → Option (List ExecutionRecord)
    → Datetime
    → Result JobObligation
derive_job_obligation P D policies job events records evaluated_at = do
  raise_if (not (is_some evaluated_at.offset)) value_error
  policy ← resolve_sla policies job
  owed ← owed_of P policy job events records
  obligation ← obligation_at P D policy job.job_id owed evaluated_at
  seen ← attention events (anchor_of owed)
  ok (attend obligation seen)

-- `derive_obligations`
unfoldable pub derive_obligations :
    {F G : Type 0}
    → Platform
    → Durations F
    → SlaPolicySet F
    → List (Job G × List StoredJobEvent)
    → Datetime
    → Result (List JobObligation)
derive_obligations P D policies [] evaluated_at = ok []
derive_obligations P D policies ((job, events) ∷ jobs) evaluated_at = do
  o ← derive_job_obligation P D policies job events none evaluated_at
  rest ← derive_obligations P D policies jobs evaluated_at
  ok (o ∷ rest)
