-- ===== src/Jobs/Obligations.antt =====
-- backend/app/jobs/obligations.py, without the prose of `reason`. An event of the history carries its
-- id here. Durations are in microseconds.
pub mod Clock
pub mod Derive
pub mod Rising
pub mod Named
pub mod Allowance
pub mod Late
use pashupatastra_sih.Prelude.{
  ℕ, zero, suc, ℤ, ltb, leb, Bool, true, false, not, ◌&&◌, ◌||◌, Option, none, some, List, [], ◌∷◌,
  if◌then◌else◌, String, ◌==◌, find, keep, any,
}
use pashupatastra_sih.Prelude.Dict.{get}
use pashupatastra_sih.Result.{
  Result, ok, err, ◌>>=◌, ◌>>◌, raise_if, collect, value_error, obligation_integrity,
}
use pashupatastra_sih.Contracts.{Value, null, text, truthy}
use pashupatastra_sih.Python.{Platform, Datetime, Durations}
use pashupatastra_sih.Jobs.State.{
  Job, JobEvent, JobStatus, reported, scheduled, notified, in_progress, completed, JobEventType,
  block_proposed, block_reproposed, committed_block_preserved, block_committed, proposal_rejected,
  proposal_postponed, proposal_invalidated, optimization_refused, block_released,
  execution_not_completed, execution_started, committed_block_conflict, transition_rejected,
  ActorRole, worker, engineer, authority, value_eq, get_value, execution_id_key, proposal_run_id_of,
}
use pashupatastra_sih.Jobs.Execution.Records.{
  ExecutionRecord, is_open, open_records, build_execution_records,
}
use pashupatastra_sih.Jobs.SlaPolicy.{
  SlaPolicy, SlaPolicySet, SlaTiming, is_due_soon, is_past_due, timing, resolve_sla,
}
use pashupatastra_sih.Data.HorizonAnchor.{aware}

-- A `StoredJobEvent`, as far as it is read here.
pub record StoredJobEvent : Type 0 where
  pub event_id : String
  pub event : JobEvent

pub data ObligationType : Type 0 where
  no_obligation approval_pending execution_start_pending completion_pending : ObligationType
  replanning_pending : ObligationType

pub data ObligationState : Type 0 where
  nothing_owed moot no_sla_defined within_sla due_soon overdue : ObligationState
  escalated_l1 escalated_l2 escalated_l3 : ObligationState

pub data ObligationReason : Type 0 where
  no_obligation_terminal no_obligation_awaiting_optimization : ObligationReason
  approval_awaiting_authority approval_withdrawn_by_system : ObligationReason
  execution_awaiting_start completion_awaiting_outcome replanning_after_release : ObligationReason
  replanning_after_not_completed : ObligationReason

pub data AttentionReason : Type 0 where
  conflicting_block integrity_refusal_recorded : AttentionReason

pub record JobObligation : Type 0 where
  pub job_id : String
  pub obligation_type : ObligationType
  pub state : ObligationState
  pub owed_role : Option ActorRole
  pub evaluated_at : String
  pub clock_started_at : Option String
  pub due_at : Option String
  pub escalation_level : ℕ
  pub elapsed : Option ℤ
  pub sla : Option ℤ
  pub policy_version : String
  pub policy_assumed : Bool
  pub anchor_event_id : Option String
  pub optimization_run_id : Value
  pub reason_code : ObligationReason
  pub attention_reason_code : Option AttentionReason
  pub attention_event_id : Option String
  pub attention_role : Option ActorRole

-- `PLACEMENT_EVENT_TYPES`, `APPROVAL_RESPONSE_EVENT_TYPES`, `SYSTEM_WITHDRAWAL_EVENT_TYPES` and
-- `REPLANNING_TRIGGER_EVENT_TYPES`
abbrev pub is_placement : JobEventType → Bool
is_placement block_proposed = true
is_placement block_reproposed = true
is_placement committed_block_preserved = true
is_placement _ = false

abbrev pub is_approval_response : JobEventType → Bool
is_approval_response block_committed = true
is_approval_response proposal_rejected = true
is_approval_response proposal_postponed = true
is_approval_response _ = false

abbrev pub is_system_withdrawal : JobEventType → Bool
is_system_withdrawal proposal_invalidated = true
is_system_withdrawal optimization_refused = true
is_system_withdrawal _ = false

abbrev pub is_replanning_trigger : JobEventType → Bool
is_replanning_trigger block_released = true
is_replanning_trigger execution_not_completed = true
is_replanning_trigger _ = false

abbrev pub is_block_committed : JobEventType → Bool
is_block_committed block_committed = true
is_block_committed _ = false

abbrev pub is_block_released : JobEventType → Bool
is_block_released block_released = true
is_block_released _ = false

abbrev pub is_conflict : JobEventType → Bool
is_conflict committed_block_conflict = true
is_conflict _ = false

abbrev pub is_transition_rejected : JobEventType → Bool
is_transition_rejected transition_rejected = true
is_transition_rejected _ = false

abbrev pub is_execution_start : JobEventType → Bool
is_execution_start execution_started = true
is_execution_start _ = false

-- `error_type in INTEGRITY_ERROR_TYPES`
abbrev pub is_integrity_error : Value → Bool
is_integrity_error (text s) = s == "CommittedStateIntegrityError" || s == "ExecutionIntegrityError"
is_integrity_error _ = false

-- `_ESCALATED_STATES[min(level, 3) - 1]`, of a level of at least one.
abbrev pub escalated : ℕ → ObligationState
escalated zero = escalated_l1
escalated (suc zero) = escalated_l1
escalated (suc (suc zero)) = escalated_l2
escalated (suc (suc (suc n))) = escalated_l3

-- `JobObligation.is_open` and `JobObligation.is_past_due`
abbrev pub is_owed : JobObligation → Bool
is_owed o = elim o.obligation_type [
  | no_obligation ↦ false
  | _ ↦ elim o.state [ moot ↦ false | _ ↦ true ]
]

abbrev pub is_late : ObligationState → Bool
is_late overdue = true
is_late escalated_l1 = true
is_late escalated_l2 = true
is_late escalated_l3 = true
is_late _ = false

-- `_last` and `matches[-1]`: the last event of a kind.
unfoldable pub last_of : (JobEvent → Bool) → List StoredJobEvent → Option StoredJobEvent
last_of p [] = none
last_of p (s ∷ events) = elim (last_of p events) [
  | none ↦ if p s.event then some s else none
  | some t ↦ some t
]

-- `_first`
abbrev pub first_of : (JobEvent → Bool) → List StoredJobEvent → Option StoredJobEvent
first_of p events = find (λ s. p s.event) events

-- `events[_index_of(events, event) + 1:]`
unfoldable pub events_after : String → List StoredJobEvent → Result (List StoredJobEvent)
events_after event_id [] = err value_error
events_after event_id (s ∷ events) =
    let rest = events_after event_id events in if s.event_id == event_id then ok events else rest

-- The events since one that may not exist.
abbrev pub events_since : Option StoredJobEvent → List StoredJobEvent → Result (List StoredJobEvent)
events_since none events = ok events
events_since (some s) events = events_after s.event_id events
