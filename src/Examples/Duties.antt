-- ===== src/Examples/Duties.antt =====
-- What a proposed job and a reported job owe.
use pashupatastra_sih.Prelude.{
  ℕ, ◌≤◌, pos, ◌+ℤ◌, scale, ◌≡◌, refl, true, false, none, some, List, [], ◌∷◌, arith,
}
use pashupatastra_sih.Prelude.{find, max_ℤ, any, ◌-ℤ◌}
use pashupatastra_sih.Jobs.State.{value_eq}
use pashupatastra_sih.Contracts.{truthy}
use pashupatastra_sih.Prelude.Dict.{get}
use pashupatastra_sih.Result.{ok}
use pashupatastra_sih.Contracts.{text}
use pashupatastra_sih.Python.{Datetime}
use pashupatastra_sih.Jobs.State.{
  JobEvent, JobEventType, authority, block_proposed, proposal_invalidated,
}
use pashupatastra_sih.Jobs.SlaPolicy.{
  SlaPolicySet, resolve_sla, resolve_raw, timing, timing_at, level_of,
}
use pashupatastra_sih.Jobs.Obligations.{
  StoredJobEvent, JobObligation, ObligationState, within_sla, escalated_l1, moot, approval_pending,
  approval_awaiting_authority, approval_withdrawn_by_system, is_late, last_of, events_after,
}
use pashupatastra_sih.Jobs.Obligations.Clock.{timed, untimed}
use pashupatastra_sih.Jobs.Obligations.Derive.{
  approval, reported_obligation, owed_by, last_refusal, attention, obligation_at,
  derive_job_obligation,
}
use pashupatastra_sih.Jobs.Obligations.Rising.{rank, derive_job_obligation-monotone}
use pashupatastra_sih.Jobs.Obligations.Named.{
  AwaitsAuthority, reported-never_late, scheduled-AwaitsAuthority,
}
use pashupatastra_sih.Jobs.Obligations.Late.{Timely, derive_job_obligation-Timely}
use pashupatastra_sih.Examples.Clocks.{whole, whole-laws, demo_policy, demo-accepted}
use pashupatastra_sih.Examples.Decisions.{person, proposed_job}
use pashupatastra_sih.Examples.Platforms.{platform, read_moment, write_moment, tally}
use pashupatastra_sih.Examples.Stores.{new_job}

abbrev policies : SlaPolicySet ℕ
policies = record { version = "sla-assumed-1"; by_severity = λ _. demo_policy }

abbrev event_of : JobEventType → JobEvent
event_of kind = record {
  job_id = "J1";
  event_type = kind;
  actor = person;
  occurred_at = "p";
  reason = none;
  optimization_run_id = text "R1";
  before_state = none;
  after_state = none;
  metadata = [];
}

abbrev history : List StoredJobEvent
history = record { event_id = "V1"; event = event_of block_proposed } ∷ []

abbrev moment : ℕ → Datetime
moment n = record { micros = pos n; offset = some (pos 0) }

abbrev approval_at : ℕ → ObligationState → ℕ → JobObligation
approval_at n state level = record {
  job_id = "J1";
  obligation_type = approval_pending;
  state = state;
  owed_role = some authority;
  evaluated_at = write_moment (pos n);
  clock_started_at = some "p";
  due_at = some (write_moment (pos 120));
  escalation_level = level;
  elapsed = some (pos n);
  sla = some (pos 120);
  policy_version = "sla-assumed-1";
  policy_assumed = true;
  anchor_event_id = some "V1";
  optimization_run_id = text "R1";
  reason_code = approval_awaiting_authority;
  attention_reason_code = none;
  attention_event_id = none;
  attention_role = none;
}

early :
    derive_job_obligation platform whole policies proposed_job history none (moment 5)
    ≡ ok (approval_at 5 within_sla 0)
unfolding derive_job_obligation resolve_sla resolve_raw owed_by approval last_of events_after
    attention last_refusal obligation_at timed timing timing_at level_of read_moment tally scale get
    value_eq any ◌+ℤ◌ max_ℤ ◌-ℤ◌
early = refl

late :
    derive_job_obligation platform whole policies proposed_job history none (moment 125)
    ≡ ok (approval_at 125 escalated_l1 1)
unfolding derive_job_obligation resolve_sla resolve_raw owed_by approval last_of events_after
    attention last_refusal obligation_at timed timing timing_at level_of read_moment tally scale get
    value_eq any ◌+ℤ◌ max_ℤ ◌-ℤ◌
late = refl

derive_job_obligation-monotone_example :
    rank (approval_at 5 within_sla 0).state ≤ rank (approval_at 125 escalated_l1 1).state
derive_job_obligation-monotone_example =
    derive_job_obligation-monotone platform whole policies proposed_job history none (moment 5)
      (moment 125) (omega arith) early late

scheduled-AwaitsAuthority_example :
    AwaitsAuthority proposed_job history (approval_at 125 escalated_l1 1)
scheduled-AwaitsAuthority_example =
    scheduled-AwaitsAuthority platform whole policies proposed_job history none (moment 125) refl
      late

derive_job_obligation-Timely_example :
    Timely platform (pos 120) (moment 125) (approval_at 125 escalated_l1 1)
derive_job_obligation-Timely_example =
    derive_job_obligation-Timely platform whole whole-laws policies proposed_job history none
      (moment 125) (λ _. (demo_policy, demo-accepted)) late refl

abbrev withdrawn_history : List StoredJobEvent
withdrawn_history =
    record { event_id = "V1"; event = event_of block_proposed }
    ∷ record { event_id = "V2"; event = event_of proposal_invalidated }
    ∷ []

abbrev ended : JobObligation
ended = record (approval_at 125 moot 0) {
  owed_role = none;
  due_at = none;
  elapsed = none;
  sla = none;
  reason_code = approval_withdrawn_by_system;
}

withdrawn :
    derive_job_obligation platform whole policies new_job withdrawn_history none (moment 125)
    ≡ ok ended
unfolding derive_job_obligation resolve_sla resolve_raw owed_by reported_obligation last_of
    events_after attention last_refusal obligation_at untimed get find truthy
withdrawn = refl

reported-never_late_example : is_late ended.state ≡ false
reported-never_late_example =
    reported-never_late platform whole policies new_job withdrawn_history none (moment 125) refl
      withdrawn
