-- ===== src/Jobs/Obligations/Rising.antt =====
-- The states of an obligation over time.
use pashupatastra_sih.Prelude.{
  ℕ, zero, suc, ◌≤◌, ℤ, ◌+ℤ◌, ◌≤ℤ◌, leb_ℤ, leb, Bool, true, not, ◌||◌, Option, none, some, List,
  ◌≡◌, refl, sym, ◌∙◌, ap, subst, if◌then◌else◌, is_some, String, arith,
}
use pashupatastra_sih.Result.{ok, >>=-eq-ok, >>-eq-ok, ok_injective, raise_if, value_error}
use pashupatastra_sih.Python.{Platform, Datetime, Durations}
use pashupatastra_sih.Jobs.State.{Job}
use pashupatastra_sih.Jobs.Execution.Records.{ExecutionRecord}
use pashupatastra_sih.Jobs.SlaPolicy.{
  SlaPolicy, SlaPolicySet, SlaTiming, timing, timing_at, level_of, moment_of, resolve_sla,
}
use pashupatastra_sih.Jobs.SlaPolicy.Ladder.{level_of-monotone}
use pashupatastra_sih.Jobs.Obligations.{
  StoredJobEvent, ObligationState, nothing_owed, moot, no_sla_defined, within_sla, due_soon,
  overdue, escalated_l1, escalated_l2, escalated_l3, AttentionReason, JobObligation, escalated,
}
use pashupatastra_sih.Jobs.Obligations.Clock.{parse, state_of, Due, timed, untimed}
use pashupatastra_sih.Jobs.Obligations.Derive.{
  Owed, clocked, unclocked, owed_of, anchor_of, attention, attend, obligation_at,
  derive_job_obligation,
}

-- How far up the ladder a state is.
abbrev pub rank : ObligationState → ℕ
rank nothing_owed = 0
rank moot = 0
rank no_sla_defined = 0
rank within_sla = 0
rank due_soon = 1
rank overdue = 2
rank escalated_l1 = 3
rank escalated_l2 = 4
rank escalated_l3 = 5

escalated-monotone : (m n : ℕ) → m ≤ n → rank (escalated m) ≤ rank (escalated n)
escalated-monotone zero zero h = omega arith
escalated-monotone zero (suc zero) h = omega arith
escalated-monotone zero (suc (suc zero)) h = omega arith
escalated-monotone zero (suc (suc (suc n))) h = omega arith
escalated-monotone (suc zero) zero h = omega arith
escalated-monotone (suc zero) (suc zero) h = omega arith
escalated-monotone (suc zero) (suc (suc zero)) h = omega arith
escalated-monotone (suc zero) (suc (suc (suc n))) h = omega arith
escalated-monotone (suc (suc zero)) zero h = omega arith
escalated-monotone (suc (suc zero)) (suc zero) h = omega (arith, h)
escalated-monotone (suc (suc zero)) (suc (suc zero)) h = omega arith
escalated-monotone (suc (suc zero)) (suc (suc (suc n))) h = omega arith
escalated-monotone (suc (suc (suc m))) zero h = omega (arith, h)
escalated-monotone (suc (suc (suc m))) (suc zero) h = omega (arith, h)
escalated-monotone (suc (suc (suc m))) (suc (suc zero)) h = omega (arith, h)
escalated-monotone (suc (suc (suc m))) (suc (suc (suc n))) h = omega arith

escalated-least : (n : ℕ) → 3 ≤ rank (escalated n)
escalated-least zero = omega arith
escalated-least (suc zero) = omega arith
escalated-least (suc (suc zero)) = omega arith
escalated-least (suc (suc (suc n))) = omega arith

-- `_state_of`, of its three tests.
abbrev pub state_from : ℕ → Bool → Bool → ObligationState
state_from level past soon =
    if leb 1 level
    then escalated level
    else if past
    then overdue
    else if soon
    then due_soon
    else within_sla

one_leb : (n : ℕ) → leb 1 (suc n) ≡ true
one_leb n = ground arith

state_from-monotone :
    (m n : ℕ) (a b c d : Bool)
    → m ≤ n
    → (not a || b) ≡ true
    → (not c || d) ≡ true
    → rank (state_from m a c) ≤ rank (state_from n b d)
state_from-monotone zero zero a b c d h p s = ground (arith, p, s)
state_from-monotone zero (suc n) a b c d h p s = ground (arith, escalated-least (suc n))
state_from-monotone (suc m) zero a b c d h p s = omega (arith, h)
state_from-monotone (suc m) (suc n) a b c d h p s =
    rw (one_leb m, one_leb n) (escalated-monotone (suc m) (suc n) h)

reached-later : (due a b : ℤ) → a ≤ℤ b → (not (leb_ℤ due a) || leb_ℤ due b) ≡ true
reached-later due a b h = ground (arith, h)

timing_at-monotone :
    {F : Type 0} (D : Durations F) (p : SlaPolicy F) (sla started_at evaluated_at later : ℤ)
    → evaluated_at ≤ℤ later
    → rank (state_of (timing_at D p sla started_at evaluated_at))
      ≤ rank (state_of (timing_at D p sla started_at later))
unfolding timing_at
timing_at-monotone D p sla started_at evaluated_at later h =
    state_from-monotone (level_of D started_at evaluated_at sla p.escalation_multipliers)
      (level_of D started_at later sla p.escalation_multipliers) _ _ _ _
      (level_of-monotone D started_at evaluated_at later sla p.escalation_multipliers h)
      (reached-later (started_at +ℤ sla) evaluated_at later h)
      (reached-later (started_at +ℤ D.times sla p.due_soon_fraction) evaluated_at later h)

moment_of-micros :
    (m : ℤ) (o : Option ℤ) {v : ℤ} → moment_of (record { micros = m; offset = o }) ≡ ok v → v ≡ m
moment_of-micros m none h = cc
moment_of-micros m (some z) h = cc

moment_of-Micros : (d : Datetime) {v : ℤ} → moment_of d ≡ ok v → v ≡ d.micros
moment_of-Micros d h = moment_of-micros d.micros d.offset h

-- What `timing` and `_timed` read of the moments.
pub timing-timing_at :
    {F : Type 0} (D : Durations F) (p : SlaPolicy F) (sla : ℤ) (s e : Datetime) {t : SlaTiming}
    → timing D p sla s e ≡ ok t
    → t ≡ timing_at D p sla s.micros e.micros
unfolding timing
timing-timing_at D p sla s e {t} h =
    let (a, qa, h1) = >>=-eq-ok (moment_of s) _ h in
    let (b, qb, h2) = >>=-eq-ok (moment_of e) _ h1 in
    rw (sym (moment_of-Micros s qa), sym (moment_of-Micros e qb)) (sym (ok_injective h2))

pub timed-State :
    {F : Type 0} (P : Platform) (D : Durations F) (p : SlaPolicy F) (job_id : String) (due : Due)
    (e : Datetime) {o : JobObligation}
    → timed P D p job_id due e ≡ ok o
    → (s : Datetime) × (parse P due.anchor.event.occurred_at ≡ ok s)
      × (o.state ≡ state_of (timing_at D p due.sla s.micros e.micros))
unfolding timed
timed-State P D p job_id due e {o} h =
    let (s, qs, h1) = >>=-eq-ok (parse P due.anchor.event.occurred_at) _ h in
    let (t, qt, h2) = >>=-eq-ok (timing D p due.sla s e) _ h1 in
    (
      s,
      qs,
      rw (sym (timing-timing_at D p due.sla s e qt)) (sym (ap (λ x. x.state) (ok_injective h2))),
    )

obligation_at-monotone :
    {F : Type 0} (P : Platform) (D : Durations F) (p : SlaPolicy F) (job_id : String) (owed : Owed)
    (e later : Datetime) {o o' : JobObligation}
    → e.micros ≤ℤ later.micros
    → obligation_at P D p job_id owed e ≡ ok o
    → obligation_at P D p job_id owed later ≡ ok o'
    → rank o.state ≤ rank o'.state
unfolding obligation_at untimed
obligation_at-monotone P D p job_id (clocked due) e later h a b =
    let (s, qs, m) = timed-State P D p job_id due e a in
    let (s', qs', m') = timed-State P D p job_id due later b in
    let same : s' ≡ s = ok_injective (sym qs' ∙ qs) in
    rw (m, m', same) (timing_at-monotone D p due.sla s.micros e.micros later.micros h)
obligation_at-monotone P D p job_id (unclocked s) e later {o} {o'} h a b =
    let q : o.state ≡ s.state = ap (λ x. x.state) (sym (ok_injective a)) in
    let q' : o'.state ≡ s.state = ap (λ x. x.state) (sym (ok_injective b)) in
    rw (q, q') (omega arith)

pub attend-state :
    (o : JobObligation) (seen : Option (AttentionReason × String)) → (attend o seen).state ≡ o.state
attend-state o none = refl
attend-state o (some seen) = refl

-- The steps of a derivation that returned.
pub record Derivation {F G : Type 0} (P : Platform) (D : Durations F) (policies : SlaPolicySet F)
    (job : Job G) (events : List StoredJobEvent) (records : Option (List ExecutionRecord))
    (e : Datetime) (o : JobObligation) : Type 0 where
  pub policy : SlaPolicy F
  pub owed : Owed
  pub bare : JobObligation
  pub resolved : resolve_sla policies job ≡ ok policy
  pub found : owed_of P policy job events records ≡ ok owed
  pub built : obligation_at P D policy job.job_id owed e ≡ ok bare
  pub seen : Option (AttentionReason × String)
  pub attended : o ≡ attend bare seen

pub derive_job_obligation-Derivation :
    {F G : Type 0} (P : Platform) (D : Durations F) (policies : SlaPolicySet F) (job : Job G)
    (events : List StoredJobEvent) (records : Option (List ExecutionRecord)) (e : Datetime)
    {o : JobObligation}
    → derive_job_obligation P D policies job events records e ≡ ok o
    → Derivation P D policies job events records e o
unfolding derive_job_obligation
derive_job_obligation-Derivation P D policies job events records e h =
    let (c, h1) = >>-eq-ok (raise_if (not (is_some e.offset)) value_error) _ h in
    let (p, qp, h2) = >>=-eq-ok (resolve_sla policies job) _ h1 in
    let (w, qw, h3) = >>=-eq-ok (owed_of P p job events records) _ h2 in
    let (b, qb, h4) = >>=-eq-ok (obligation_at P D p job.job_id w e) _ h3 in
    let (s, qs, h5) = >>=-eq-ok (attention events (anchor_of w)) _ h4 in
    record {
      policy = p;
      owed = w;
      bare = b;
      resolved = qp;
      found = qw;
      built = qb;
      seen = s;
      attended = sym (ok_injective h5);
    }

-- Of one job with one history and one set of policies, an obligation that is derived for a later
-- moment is not lower on the ladder from within its allowance to the third escalation: time alone
-- never takes a job back down.
pub derive_job_obligation-monotone :
    {F G : Type 0} (P : Platform) (D : Durations F) (policies : SlaPolicySet F) (job : Job G)
    (events : List StoredJobEvent) (records : Option (List ExecutionRecord)) (e later : Datetime)
    {o o' : JobObligation}
    → e.micros ≤ℤ later.micros
    → derive_job_obligation P D policies job events records e ≡ ok o
    → derive_job_obligation P D policies job events records later ≡ ok o'
    → rank o.state ≤ rank o'.state
derive_job_obligation-monotone P D policies job events records e later h a b =
    let x = derive_job_obligation-Derivation P D policies job events records e a in
    let y = derive_job_obligation-Derivation P D policies job events records later b in
    let same : y.policy ≡ x.policy = ok_injective (sym y.resolved ∙ x.resolved) in
    let found : owed_of P x.policy job events records ≡ ok y.owed =
      subst (λ p. owed_of P p job events records ≡ ok y.owed) same y.found in
    let owed : y.owed ≡ x.owed = ok_injective (sym found ∙ x.found) in
    let built : obligation_at P D x.policy job.job_id x.owed later ≡ ok y.bare =
      rw (sym same, sym owed) y.built in
    rw (x.attended, y.attended, attend-state x.bare x.seen, attend-state y.bare y.seen)
      (obligation_at-monotone P D x.policy job.job_id x.owed e later h x.built built)
