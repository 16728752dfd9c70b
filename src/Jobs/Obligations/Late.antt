-- ===== src/Jobs/Obligations/Late.antt =====
-- When an obligation of backend/app/jobs/obligations.py is late.
use pashupatastra_sih.Prelude.{
  ℕ, zero, suc, ◌≤◌, ℤ, pos, ◌+ℤ◌, ◌<ℤ◌, leb_ℤ, true, Option, none, some, List, ◌≡◌, refl, sym, ◌∙◌,
  ap, subst, String, some_injective, Option-cases, inl, inr, arith,
}
use pashupatastra_sih.Result.{ok, Holds-ok, >>=-eq-ok, ok_injective}
use pashupatastra_sih.Contracts.{Value, null, num, text, json, fields, entries}
use pashupatastra_sih.Python.{Platform, Datetime, Durations}
use pashupatastra_sih.Jobs.State.{Job, get_value}
use pashupatastra_sih.Jobs.Execution.Records.{ExecutionRecord}
use pashupatastra_sih.Jobs.SlaPolicy.{
  SlaPolicy, SlaPolicySet, SlaTiming, DefectSeverity, no_severity, is_past_due, sla_policy, timing,
  timing_at, severity_from, resolve_raw, resolve_sla,
}
use pashupatastra_sih.Jobs.SlaPolicy.Ladder.{IsDurations, Numbers, timing_at-Ladder, policy-Numbers}
use pashupatastra_sih.Jobs.Obligations.{
  StoredJobEvent, JobObligation, AttentionReason, escalated, is_late,
}
use pashupatastra_sih.Jobs.Obligations.Derive.{
  Owed, clocked, unclocked, obligation_at, derive_job_obligation, attend,
}
use pashupatastra_sih.Jobs.Obligations.Allowance.{HasAllowance, owed_by-HasAllowance}
use pashupatastra_sih.Jobs.Obligations.Rising.{timing-timing_at, derive_job_obligation-Derivation}
use pashupatastra_sih.Jobs.Obligations.Clock.{Due, timed, untimed, parse, state_of}

-- The deadline that an obligation on a clock shows.
pub record Deadline (P : Platform) (due : Due) (e : Datetime) (o : JobObligation) : Type 0 where
  pub started : Datetime
  pub parsed : P.from_iso due.anchor.event.occurred_at ≡ some started
  pub clock : o.clock_started_at ≡ some due.anchor.event.occurred_at
  pub allowance : o.sla ≡ some due.sla
  pub due_time : o.due_at ≡ some (P.to_iso (started.micros +ℤ due.sla))
  pub exact : is_late o.state ≡ leb_ℤ (started.micros +ℤ due.sla) e.micros

parse-some :
    (P : Platform) (moment : String) {d : Datetime}
    → parse P moment ≡ ok d
    → P.from_iso moment ≡ some d
parse-some P moment h = elim (Option-cases (P.from_iso moment)) [
  | inl n ↦ cc (rw (n, parse) at h)
  | inr (d, q) ↦ q ∙ ap some (ok_injective (rw (q, parse) at h))
]

timing_due :
    {F : Type 0} (D : Durations F) (p : SlaPolicy F) (sla m e : ℤ) (f : ℤ → Option String)
    → f (timing_at D p sla m e).due_at ≡ f (m +ℤ sla)
unfolding timing_at
timing_due D p sla m e f = refl

timing_past :
    {F : Type 0} (D : Durations F) (p : SlaPolicy F) (sla m e : ℤ)
    → is_past_due (timing_at D p sla m e) ≡ leb_ℤ (m +ℤ sla) e
unfolding timing_at
timing_past D p sla m e = refl

escalated-late : (n : ℕ) → is_late (escalated n) ≡ true
escalated-late zero = refl
escalated-late (suc zero) = refl
escalated-late (suc (suc zero)) = refl
escalated-late (suc (suc (suc n))) = refl

state_of-late :
    (t : SlaTiming)
    → (1 ≤ t.escalation_level → is_past_due t ≡ true)
    → is_late (state_of t) ≡ is_past_due t
state_of-late t h = ground (arith, h, escalated-late t.escalation_level)

timed-late :
    {F : Type 0} (P : Platform) (D : Durations F) (laws : IsDurations D) (q : SlaPolicy F)
    {p : SlaPolicy F} (job_id : String) (due : Due) (e : Datetime) {o : JobObligation}
    → sla_policy D q ≡ ok p
    → pos 0 <ℤ due.sla
    → timed P D p job_id due e ≡ ok o
    → Deadline P due e o
unfolding timed
timed-late P D laws q {p} job_id due e {o} h positive built =
    let (s, qs, h1) = >>=-eq-ok (parse P due.anchor.event.occurred_at) _ built in
    let (t, qt, h2) = >>=-eq-ok (timing D p due.sla s e) _ h1 in
    let same : t ≡ timing_at D p due.sla s.micros e.micros = timing-timing_at D p due.sla s e qt in
    let (few, ladder, past, soon) =
      timing_at-Ladder D laws q due.sla s.micros e.micros h positive in
    let late : is_late (state_of t) ≡ is_past_due t =
      state_of-late t
        (subst (λ x. 1 ≤ x.escalation_level → is_past_due x ≡ true) (sym same) past) in
    record {
      started = s;
      parsed = parse-some P due.anchor.event.occurred_at qs;
      clock = ap (λ x. x.clock_started_at) (sym (ok_injective h2));
      allowance = ap (λ x. x.sla) (sym (ok_injective h2));
      due_time =
          ap (λ x. x.due_at) (sym (ok_injective h2))
          ∙ ap (λ x. some (P.to_iso x.due_at)) same
          ∙ at_due s.micros;
      exact =
          ap (λ x. is_late x.state) (sym (ok_injective h2))
          ∙ late
          ∙ ap is_past_due same
          ∙ at_past s.micros;
    }
  where
    at_due :
        (m : ℤ)
        → some (P.to_iso (timing_at D p due.sla m e.micros).due_at) ≡ some (P.to_iso (m +ℤ due.sla))
    at_due m = timing_due D p due.sla m e.micros (λ x. some (P.to_iso x))

    at_past :
        (m : ℤ) → is_past_due (timing_at D p due.sla m e.micros) ≡ leb_ℤ (m +ℤ due.sla) e.micros
    at_past m = timing_past D p due.sla m e.micros

-- The policy of a job is one of its set.
resolve_text :
    {F : Type 0} (policies : SlaPolicySet F) (s : String) {p : SlaPolicy F}
    → resolve_raw policies (text s) ≡ ok p
    → (d : DefectSeverity) × (policies.by_severity d ≡ p)
unfolding resolve_raw
resolve_text policies s h = elim (Option-cases (severity_from (text s))) [
  | inl n ↦ cc (rw (n, resolve_raw) at h)
  | inr (d, q) ↦ (d, ok_injective (rw (q, resolve_raw) at h))
]

resolve_raw-some :
    {F : Type 0} (policies : SlaPolicySet F) (raw : Value) {p : SlaPolicy F}
    → resolve_raw policies raw ≡ ok p
    → (d : DefectSeverity) × (policies.by_severity d ≡ p)
unfolding resolve_raw severity_from
resolve_raw-some policies null h = (no_severity, ok_injective h)
resolve_raw-some policies (text s) h = resolve_text policies s h
resolve_raw-some policies (num n) h = cc
resolve_raw-some policies (json t) h = cc
resolve_raw-some policies (fields t) h = cc
resolve_raw-some policies (entries t) h = cc

-- `resolve_sla`, of the value that it reads.
resolve_sla-some :
    {F G : Type 0} (policies : SlaPolicySet F) (job : Job G) {p : SlaPolicy F}
    → resolve_sla policies job ≡ ok p
    → (d : DefectSeverity) × (policies.by_severity d ≡ p)
unfolding resolve_sla
resolve_sla-some policies job h =
    resolve_raw-some policies (get_value "reported_severity" job.block_candidate.metadata) h

-- Attention leaves the clock alone.
record SameClock (o o' : JobObligation) : Type 0 where
  clock : o.clock_started_at ≡ o'.clock_started_at
  allowance : o.sla ≡ o'.sla
  due_time : o.due_at ≡ o'.due_at
  same_state : o.state ≡ o'.state

attend-SameClock :
    (o : JobObligation) (seen : Option (AttentionReason × String)) → SameClock (attend o seen) o
attend-SameClock o none = record {
  clock = refl;
  allowance = refl;
  due_time = refl;
  same_state = refl;
}
attend-SameClock o (some seen) = record {
  clock = refl;
  allowance = refl;
  due_time = refl;
  same_state = refl;
}

-- An obligation with an allowance is late exactly from its deadline on.
pub record Timely (P : Platform) (sla : ℤ) (e : Datetime) (o : JobObligation) : Type 0 where
  pub started : Datetime
  pub at : String
  pub clock : o.clock_started_at ≡ some at
  pub parsed : P.from_iso at ≡ some started
  pub due_time : o.due_at ≡ some (P.to_iso (started.micros +ℤ sla))
  pub exact : is_late o.state ≡ leb_ℤ (started.micros +ℤ sla) e.micros

owed-Timely :
    {F G : Type 0} (P : Platform) (D : Durations F) (laws : IsDurations D) (q : SlaPolicy F)
    {p : SlaPolicy F} (job : Job G) (events : List StoredJobEvent) (e : Datetime) (owed : Owed)
    {o : JobObligation} {sla : ℤ}
    → sla_policy D q ≡ ok p
    → (n : Numbers D p) → HasAllowance n job events owed
    → obligation_at P D p job.job_id owed e ≡ ok o
    → o.sla ≡ some sla
    → Timely P sla e o
unfolding obligation_at untimed HasAllowance
owed-Timely P D laws q {p} job events e (unclocked s) {o} {sla} h n a b c =
    let missing : o.sla ≡ none = ap (λ x. x.sla) (sym (ok_injective b)) in
    let wrong : none ≡ some sla = sym missing ∙ c in cc
owed-Timely P D laws q {p} job events e (clocked due) {o} {sla} h n a b c =
    let d = timed-late P D laws q job.job_id due e h a b in
    let same : due.sla ≡ sla = some_injective (sym d.allowance ∙ c) in
    record {
      started = d.started;
      at = due.anchor.event.occurred_at;
      clock = d.clock;
      parsed = d.parsed;
      due_time = d.due_time ∙ ap (λ x. some (P.to_iso (d.started.micros +ℤ x))) same;
      exact = d.exact ∙ ap (λ x. leb_ℤ (d.started.micros +ℤ x) e.micros) same;
    }

-- Under policies that their constructor accepted, an obligation with an allowance is late exactly
-- when it is derived at the start of its clock plus the allowance, or after that: it shows the
-- start and this deadline, and its state is overdue or escalated from then on and never before.
pub derive_job_obligation-Timely :
    {F G : Type 0} (P : Platform) (D : Durations F) (laws : IsDurations D)
    (policies : SlaPolicySet F) (job : Job G) (events : List StoredJobEvent)
    (records : Option (List ExecutionRecord)) (e : Datetime) {o : JobObligation} {sla : ℤ}
    → ((d : DefectSeverity) → (q : SlaPolicy F) × (sla_policy D q ≡ ok (policies.by_severity d)))
    → derive_job_obligation P D policies job events records e ≡ ok o
    → o.sla ≡ some sla
    → Timely P sla e o
derive_job_obligation-Timely P D laws policies job events records e {o} {sla} accepted h c =
    let x = derive_job_obligation-Derivation P D policies job events records e h in
    let (d, same) = resolve_sla-some policies job x.resolved in
    let (q, valid) = accepted d in
    let valid' : sla_policy D q ≡ ok x.policy = valid ∙ ap (λ p. ok p) same in
    let n = policy-Numbers D q valid' in
    let a =
      Holds-ok (HasAllowance n job events) _
        (owed_by-HasAllowance n job events P records job.status) x.found in
    let k = attend-SameClock x.bare x.seen in
    let c' : x.bare.sla ≡ some sla = sym k.allowance ∙ ap (λ y. y.sla) (sym x.attended) ∙ c in
    let t = owed-Timely P D laws q job events e x.owed valid' n a x.built c' in
    record {
      started = t.started;
      at = t.at;
      clock = ap (λ y. y.clock_started_at) x.attended ∙ k.clock ∙ t.clock;
      parsed = t.parsed;
      due_time = ap (λ y. y.due_at) x.attended ∙ k.due_time ∙ t.due_time;
      exact = ap (λ y. is_late y.state) x.attended ∙ ap is_late k.same_state ∙ t.exact;
    }
