-- ===== src/Jobs/Obligations/Named.antt =====
-- What the obligation of a job names.
use pashupatastra_sih.Prelude.{
  Bool, true, false, ◌&&◌, Option, none, some, List, [], ◌∷◌, ◌++◌, ◌≡◌, refl, sym, ◌∙◌, ap, subst,
  In, here, there, Bool-cases, Option-cases, inl, inr, All, any, any-false, All-intro, String, ◌==◌,
  some_injective, arith,
}
use pashupatastra_sih.Result.{
  ok, >>=-eq-ok, ok_injective, Holds-ok, Holds->>=, Holds->>, obligation_integrity,
}
use pashupatastra_sih.Python.{Platform, Datetime, Durations}
use pashupatastra_sih.Jobs.State.{Job, JobEvent, reported, scheduled, authority, proposal_run_id_of}
use pashupatastra_sih.Jobs.Execution.Records.{ExecutionRecord}
use pashupatastra_sih.Jobs.SlaPolicy.{SlaPolicy, SlaPolicySet, timing}
use pashupatastra_sih.Jobs.Obligations.{
  StoredJobEvent, approval_pending, JobObligation, AttentionReason, is_placement,
  is_replanning_trigger, is_late, last_of, events_after, events_since,
}
use pashupatastra_sih.Jobs.Obligations.Clock.{Due, timed, untimed, parse}
use pashupatastra_sih.Jobs.Obligations.Derive.{
  is_null, of_run, present, settles, approval, withdrawn_or_awaiting, reported_from,
  reported_obligation, withdrawal_of, clocked, unclocked, owed_by, obligation_at, attend,
  derive_job_obligation,
}
use pashupatastra_sih.Jobs.Obligations.Rising.{attend-state, derive_job_obligation-Derivation}

last_of-some :
    (p : JobEvent → Bool) (events : List StoredJobEvent) {s : StoredJobEvent}
    → last_of p events ≡ some s
    → In s events × (p s.event ≡ true)
unfolding last_of
last_of-some p [] h = cc
last_of-some p (x ∷ events) {s} h = elim (Option-cases (last_of p events)) [
  | inl n ↦ elim (Bool-cases (p x.event)) [
    | inl t ↦
        let same : x ≡ s = some_injective (rw (n, t) at h) in
        (here (sym same), subst (λ y. p y.event ≡ true) same t)
    | inr f ↦ cc (rw (n, f) at h)
  ]
  | inr (t, e) ↦
      let same : t ≡ s = some_injective (rw e at h) in
      let (i, q) = last_of-some p events (e ∙ ap some same) in (there i, q)
]

-- The events after the one that is named are the rest of the history.
events_after-split :
    (event_id : String) (events : List StoredJobEvent) {after : List StoredJobEvent}
    → events_after event_id events ≡ ok after
    → (before : List StoredJobEvent) × (s : StoredJobEvent) × (events ≡ before ++ (s ∷ after))
      × ((s.event_id == event_id) ≡ true)
unfolding events_after
events_after-split event_id [] h = cc
events_after-split event_id (x ∷ events) h = elim (Bool-cases (x.event_id == event_id)) [
  | inl t ↦ ([], x, ap (λ es. x ∷ es) (ok_injective (rw t at h)), t)
  | inr f ↦
      let (before, s, q, n) = events_after-split event_id events (rw f at h) in
      (x ∷ before, s, ap (λ es. x ∷ es) q, n)
]

-- Whatever was withdrawn, the state is not late.
unanswered-late :
    (placement withdrawal : Option StoredJobEvent)
    → is_late (withdrawn_or_awaiting placement withdrawal).state ≡ false
unanswered-late none none = refl
unanswered-late none (some w) = refl
unanswered-late (some p) none = refl
unanswered-late (some p) (some w) = refl

reported_from-late :
    (trigger placement : Option StoredJobEvent) (recent : List StoredJobEvent)
    → is_late (reported_from trigger placement recent).state ≡ false
reported_from-late (some s) placement recent = refl
reported_from-late none placement recent = unanswered-late placement (withdrawal_of recent)

-- The obligation of a reported job is never late, at whatever moment it is derived: what the system
-- or the authority withdrew breaches no deadline.
pub reported-never_late :
    {F G : Type 0} (P : Platform) (D : Durations F) (policies : SlaPolicySet F) (job : Job G)
    (events : List StoredJobEvent) (records : Option (List ExecutionRecord)) (e : Datetime)
    {o : JobObligation}
    → job.status ≡ reported
    → derive_job_obligation P D policies job events records e ≡ ok o
    → is_late o.state ≡ false
unfolding owed_by reported_obligation obligation_at untimed
reported-never_late P D policies job events records e r h =
    let x = derive_job_obligation-Derivation P D policies job events records e h in
    let (s, qs, h1) = >>=-eq-ok (reported_obligation events) _ (rw r at x.found) in
    let placement = last_of (λ v. is_placement v.event_type) events in
    let (recent, qr, h2) = >>=-eq-ok (events_since placement events) _ qs in
    let owed : x.owed ≡ unclocked s = sym (ok_injective h1) in
    let built : ok (untimed P x.policy job.job_id s e) ≡ ok x.bare =
      subst (λ w. obligation_at P D x.policy job.job_id w e ≡ ok x.bare) owed x.built in
    let state : x.bare.state ≡ s.state = ap (λ b. b.state) (sym (ok_injective built)) in
    rw (x.attended, attend-state x.bare x.seen, state, sym (ok_injective h2))
      (reported_from-late (last_of (λ v. is_replanning_trigger v.event_type) recent) placement
        recent)

-- What an open approval says of the history.
pub record AwaitsAuthority {G : Type 0} (job : Job G) (events : List StoredJobEvent)
    (o : JobObligation) : Type 0 where
  pub kind : o.obligation_type ≡ approval_pending
  pub role : o.owed_role ≡ some authority
  -- the event that placed the current proposal, which starts the clock
  pub anchor : StoredJobEvent
  pub listed : In anchor events
  pub placed : is_placement anchor.event.event_type ≡ true
  pub current : of_run (proposal_run_id_of job) anchor.event ≡ true
  pub named : o.anchor_event_id ≡ some anchor.event_id
  pub since : o.clock_started_at ≡ some anchor.event.occurred_at
  -- nobody has answered or withdrawn the proposal since
  pub before : List StoredJobEvent
  pub after : List StoredJobEvent
  pub found : StoredJobEvent
  pub split : events ≡ before ++ (found ∷ after)
  pub same_id : (found.event_id == anchor.event_id) ≡ true
  pub unanswered : All (λ s. settles (proposal_run_id_of job) s.event ≡ false) after

-- The fields of an obligation that attention leaves alone.
record SameDuty (o o' : JobObligation) : Type 0 where
  kind : o.obligation_type ≡ o'.obligation_type
  role : o.owed_role ≡ o'.owed_role
  named : o.anchor_event_id ≡ o'.anchor_event_id
  since : o.clock_started_at ≡ o'.clock_started_at

attend-SameDuty :
    (o : JobObligation) (seen : Option (AttentionReason × String)) → SameDuty (attend o seen) o
attend-SameDuty o none = record { kind = refl; role = refl; named = refl; since = refl }
attend-SameDuty o (some seen) = record { kind = refl; role = refl; named = refl; since = refl }

-- What a timed obligation names.
record Names (due : Due) (o : JobObligation) : Type 0 where
  kind : o.obligation_type ≡ due.obligation_type
  role : o.owed_role ≡ some due.owed_role
  named : o.anchor_event_id ≡ some due.anchor.event_id
  since : o.clock_started_at ≡ some due.anchor.event.occurred_at

timed-Names :
    {F : Type 0} (P : Platform) (D : Durations F) (p : SlaPolicy F) (job_id : String) (due : Due)
    (e : Datetime) {o : JobObligation}
    → timed P D p job_id due e ≡ ok o
    → Names due o
unfolding timed
timed-Names P D p job_id due e h =
    let Q = Names due in
    Holds-ok Q (timed P D p job_id due e)
      (Holds->>= Q (parse P due.anchor.event.occurred_at) _ λ s _.
        Holds->>= Q (timing D p due.sla s e) _
          λ t _. record { kind = refl; role = refl; named = refl; since = refl })
      h

-- What `_approval` has found.
record Approval {F G : Type 0} (policy : SlaPolicy F) (job : Job G) (events : List StoredJobEvent)
    (due : Due) : Type 0 where
  kind : due.obligation_type ≡ approval_pending
  role : due.owed_role ≡ authority
  latest :
      last_of (λ e. of_run (proposal_run_id_of job) e && is_placement e.event_type) events
      ≡ some due.anchor
  after : List StoredJobEvent
  rest : events_after due.anchor.event_id events ≡ ok after
  unanswered : any (λ s. settles (proposal_run_id_of job) s.event) after ≡ false

present-some :
    (found : Option StoredJobEvent) {s : StoredJobEvent} → present found ≡ ok s → found ≡ some s
present-some none h = cc
present-some (some s) h = ap some (ok_injective h)

approval-Approval :
    {F G : Type 0} (policy : SlaPolicy F) (job : Job G) (events : List StoredJobEvent) {due : Due}
    → approval policy job events ≡ ok due
    → Approval policy job events due
unfolding approval
approval-Approval policy job events h =
    let run = proposal_run_id_of job in
    let latest = last_of (λ e. of_run run e && is_placement e.event_type) events in
    let Q = Approval policy job events in
    Holds-ok Q (approval policy job events)
      (Holds->> Q (is_null run) obligation_integrity _ λ _. Holds->>= Q (present latest) _ λ s qs.
        Holds->>= Q (events_after s.event_id events) _ λ after qa.
          Holds->> Q (any (λ t. settles run t.event) after) obligation_integrity _ λ q. record {
            kind = refl;
            role = refl;
            latest = present-some latest qs;
            after = after;
            rest = qa;
            unanswered = q;
          })
      h

-- A scheduled job awaits its authority: the obligation is the authority's approval; its clock started
-- at an event of the history that placed the proposal of the job's current run, and since that event
-- the history holds no answer to this run and no withdrawal of it.
pub scheduled-AwaitsAuthority :
    {F G : Type 0} (P : Platform) (D : Durations F) (policies : SlaPolicySet F) (job : Job G)
    (events : List StoredJobEvent) (records : Option (List ExecutionRecord)) (e : Datetime)
    {o : JobObligation}
    → job.status ≡ scheduled
    → derive_job_obligation P D policies job events records e ≡ ok o
    → AwaitsAuthority job events o
unfolding owed_by obligation_at approval
scheduled-AwaitsAuthority P D policies job events records e r h =
    let x = derive_job_obligation-Derivation P D policies job events records e h in
    let (due, qd, h1) = >>=-eq-ok (approval x.policy job events) _ (rw r at x.found) in
    let owed : x.owed ≡ clocked due = sym (ok_injective h1) in
    let built : timed P D x.policy job.job_id due e ≡ ok x.bare =
      subst (λ w. obligation_at P D x.policy job.job_id w e ≡ ok x.bare) owed x.built in
    let n = timed-Names P D x.policy job.job_id due e built in
    let kept = attend-SameDuty x.bare x.seen in
    let a = approval-Approval x.policy job events qd in
    let (i, q) = last_of-some _ events a.latest in
    let (before, found, split, same) = events_after-split due.anchor.event_id events a.rest in
    record {
      kind = ap (λ y. y.obligation_type) x.attended ∙ kept.kind ∙ n.kind ∙ a.kind;
      role = ap (λ y. y.owed_role) x.attended ∙ kept.role ∙ n.role ∙ ap some a.role;
      anchor = due.anchor;
      listed = i;
      placed = second (of_run (proposal_run_id_of job) due.anchor.event) _ q;
      current = first _ (is_placement due.anchor.event.event_type) q;
      named = ap (λ y. y.anchor_event_id) x.attended ∙ kept.named ∙ n.named;
      since = ap (λ y. y.clock_started_at) x.attended ∙ kept.since ∙ n.since;
      before = before;
      after = a.after;
      found = found;
      split = split;
      same_id = same;
      unanswered = All-intro _ a.after (λ s j. any-false _ a.after a.unanswered j);
    }
  where
    first : (a b : Bool) → (a && b) ≡ true → a ≡ true
    first a b q = ground (arith, q)

    second : (a b : Bool) → (a && b) ≡ true → b ≡ true
    second a b q = ground (arith, q)
