-- ===== src/Jobs/Obligations/Clock.antt =====
-- Building one obligation in backend/app/jobs/obligations.py.
use pashupatastra_sih.Prelude.{ℤ, leb, Option, none, some, String, if◌then◌else◌}
use pashupatastra_sih.Result.{Result, ok, err, ◌>>=◌, value_error}
use pashupatastra_sih.Contracts.{Value}
use pashupatastra_sih.Python.{Platform, Datetime, Durations}
use pashupatastra_sih.Jobs.State.{ActorRole}
use pashupatastra_sih.Jobs.SlaPolicy.{SlaPolicy, SlaTiming, is_due_soon, is_past_due, timing}
use pashupatastra_sih.Jobs.Obligations.{
  StoredJobEvent, ObligationType, ObligationState, within_sla, due_soon, overdue, ObligationReason,
  JobObligation, escalated,
}

-- `_parse`
abbrev pub parse : Platform → String → Result Datetime
parse P moment = elim (P.from_iso moment) [ none ↦ err value_error | some d ↦ ok d ]

-- `_state_of`
abbrev pub state_of : SlaTiming → ObligationState
state_of t =
    if leb 1 t.escalation_level
    then escalated t.escalation_level
    else if is_past_due t
    then overdue
    else if is_due_soon t
    then due_soon
    else within_sla

-- What `_approval`, `_execution_start` and `_completion` pass to `_timed`.
pub record Due : Type 0 where
  pub obligation_type : ObligationType
  pub owed_role : ActorRole
  pub sla : ℤ
  pub anchor : StoredJobEvent
  pub reason_code : ObligationReason
  pub optimization_run_id : Value

-- `_timed`
unfoldable pub timed :
    {F : Type 0}
    → Platform
    → Durations F
    → SlaPolicy F
    → String
    → Due
    → Datetime
    → Result JobObligation
timed P D policy job_id due evaluated_at = do
  started_at ← parse P due.anchor.event.occurred_at
  t ← timing D policy due.sla started_at evaluated_at
  ok (record {
    job_id = job_id;
    obligation_type = due.obligation_type;
    state = state_of t;
    owed_role = some due.owed_role;
    evaluated_at = P.to_iso evaluated_at.micros;
    clock_started_at = some due.anchor.event.occurred_at;
    due_at = some (P.to_iso t.due_at);
    escalation_level = t.escalation_level;
    elapsed = some t.elapsed;
    sla = some due.sla;
    policy_version = policy.version;
    policy_assumed = policy.assumed;
    anchor_event_id = some due.anchor.event_id;
    optimization_run_id = due.optimization_run_id;
    reason_code = due.reason_code;
    attention_reason_code = none;
    attention_event_id = none;
    attention_role = none;
  })

-- What `_reported` and the branch of a completed job pass to `_untimed`.
pub record Settled : Type 0 where
  pub obligation_type : ObligationType
  pub state : ObligationState
  pub owed_role : Option ActorRole
  pub anchor : Option StoredJobEvent
  pub reason_code : ObligationReason
  pub optimization_run_id : Value

-- `_untimed`
unfoldable pub untimed :
    {F : Type 0} → Platform → SlaPolicy F → String → Settled → Datetime → JobObligation
untimed P policy job_id s evaluated_at = record {
  job_id = job_id;
  obligation_type = s.obligation_type;
  state = s.state;
  owed_role = s.owed_role;
  evaluated_at = P.to_iso evaluated_at.micros;
  clock_started_at = elim s.anchor [ none ↦ none | some a ↦ some a.event.occurred_at ];
  due_at = none;
  escalation_level = 0;
  elapsed = none;
  sla = none;
  policy_version = policy.version;
  policy_assumed = policy.assumed;
  anchor_event_id = elim s.anchor [ none ↦ none | some a ↦ some a.event_id ];
  optimization_run_id = s.optimization_run_id;
  reason_code = s.reason_code;
  attention_reason_code = none;
  attention_event_id = none;
  attention_role = none;
}
