-- ===== src/Jobs/History.antt =====
-- The execution events in the log and the stored status of a job, over the writes of repository.py.
use pashupatastra_sih.Prelude.{
  ◌≡◌, refl, sym, ◌∙◌, subst, String, Bool, true, false, Option, some, List, ◌++◌, In,
  In-append_left, In-append_right, inl, inr, Bool-cases, Option-cases, some_injective, arith,
}
use pashupatastra_sih.Contracts.{BlockCandidate, Value, text}
use pashupatastra_sih.Jobs.State.{
  JobStatus, reported, scheduled, notified, in_progress, completed, Job, JobEvent, JobEventType,
  ExecutionTransitionKind, start, complete, ExecutionTransition, AuthorityRelease, execution_id_key,
  execution_id_of, get_value,
}
use pashupatastra_sih.Jobs.Guards.{
  is_terminal, is_committed_status, is_reported, is_notified, is_in_progress, schedule_of, Schedule,
  required_kind, named_execution,
}
use pashupatastra_sih.Jobs.Validation.{is_event_of, keeps_commitment}
use pashupatastra_sih.Jobs.Store.{Store, row}
use pashupatastra_sih.Jobs.Values.{value_eq_sound}
use pashupatastra_sih.Jobs.Gates.{gate-execution}
use pashupatastra_sih.Jobs.Accepted.{Accepted}
use pashupatastra_sih.Jobs.Steps.{Step, Logged, Change, unmoved, refused, moved}
use pashupatastra_sih.Jobs.Effects.{Step-Stepped}
use pashupatastra_sih.Jobs.Absent.{Step-absent}

-- The log has an event of the kind's type for the job that names the execution.
abbrev pub HasEvent : String → ExecutionTransitionKind → Value → List JobEvent → Type 0
HasEvent k kind v events = Logged k (is_event_of kind) execution_id_key v events

-- A job that is in progress has its start in the log, and a completed one its start and its
-- completion, with after-work evidence, all naming the execution that the row names.
abbrev pub Backed : String → JobStatus → Value → List JobEvent → Type 0
Backed k in_progress v events = HasEvent k start v events
Backed k completed v events = HasEvent k start v events × HasEvent k complete v events
Backed _ _ _ _ = Unit {0}

abbrev pub AllBacked : {F : Type 0} → Store F → Type 0
AllBacked {F} store =
    (k : String) (j : Job F)
    → row k store.rows ≡ some j
    → Backed k j.status (execution_id_of j) store.events

Logged-In :
    {k : String} {ty : JobEventType → Bool} {key : String} {v : Value} {xs ys : List JobEvent}
    → ((e : JobEvent) → In e xs → In e ys)
    → Logged k ty key v xs
    → Logged k ty key v ys
Logged-In f l = record {
  event = l.event;
  logged = f l.event l.logged;
  of_job = l.of_job;
  of_type = l.of_type;
  names_it = l.names_it;
  evidence = l.evidence;
}

Backed-append :
    (k : String) (st : JobStatus) (v : Value) (xs ys : List JobEvent)
    → Backed k st v xs
    → Backed k st v (xs ++ ys)
Backed-append k in_progress v xs ys b = Logged-In (λ e i. In-append_left ys i) b
Backed-append k completed v xs ys b =
    (Logged-In (λ e i. In-append_left ys i) b.0, Logged-In (λ e i. In-append_left ys i) b.1)
Backed-append k reported v xs ys b = tt
Backed-append k scheduled v xs ys b = tt
Backed-append k notified v xs ys b = tt

-- A move that keeps the commitment keeps the execution of a job in progress.
kept-execution :
    {F : Type 0} (j : Job F) (block : BlockCandidate F) (schedule : Schedule)
    → is_in_progress j.status ≡ true
    → keeps_commitment j block schedule ≡ true
    → get_value execution_id_key block.metadata ≡ execution_id_of j
unfolding keeps_commitment
kept-execution j block schedule p h =
    sym (
      value_eq_sound (execution_id_of j) (get_value execution_id_key block.metadata) (ground arith))

HasEvent-kind :
    {k : String} {kind kind' : ExecutionTransitionKind} {v w : Value} {events : List JobEvent}
    → kind ≡ kind'
    → v ≡ w
    → HasEvent k kind v events
    → HasEvent k kind' w events
HasEvent-kind {k} {kind} {kind'} {v} {w} {events} p q h =
    subst (λ x. HasEvent k x w events) p (subst (λ x. HasEvent k kind x events) q h)

start_required :
    (s : JobStatus) → is_in_progress s ≡ false → required_kind s in_progress ≡ some start
unfolding required_kind
start_required s f = ground arith

complete_required : (s : JobStatus) → required_kind s completed ≡ some complete
unfolding required_kind
complete_required s = refl

module _ {F : Type 0} (k : String) (j : Job F) (block : BlockCandidate F) (schedule : Schedule)
    (execution : Option ExecutionTransition) (release : Option AuthorityRelease)
    (events new_events : List JobEvent)
    (logged : (t : ExecutionTransition)
      → execution ≡ some t
      → HasEvent k t.kind (text t.execution_id) new_events) where
  -- A move that requires an execution token has its event among the new ones.
  gated-HasEvent :
      (st : JobStatus) {kind : ExecutionTransitionKind} {v : Value}
      → Accepted j st block schedule execution release
      → required_kind j.status st ≡ some kind
      → ((x : Value) → named_execution kind j block ≡ some x → x ≡ v)
      → HasEvent k kind v (events ++ new_events)
  gated-HasEvent st accepted q n =
      let (t, e, same, named) = gate-execution j st block execution release accepted.gate q in
      Logged-In (λ e i. In-append_right events i)
        (HasEvent-kind same (n (text t.execution_id) named) (logged t e))

  still_running :
      (st : JobStatus)
      → Accepted j st block schedule execution release
      → is_reported st ≡ false
      → is_in_progress j.status ≡ true
      → get_value execution_id_key block.metadata ≡ execution_id_of j
  still_running st accepted r p = elim (accepted.commitment (running j.status p)) [
    | inl (q, full) ↦ cc
    | inr (q, kept) ↦ kept-execution j block schedule p kept
  ]
    where
      running : (s : JobStatus) → is_in_progress s ≡ true → is_committed_status s ≡ true
      running s h = ground arith

  started :
      is_in_progress j.status ≡ true
      → Backed k j.status (execution_id_of j) events
      → HasEvent k start (execution_id_of j) events
  started p = go j.status p
    where
      go :
          (s : JobStatus)
          → is_in_progress s ≡ true
          → Backed k s (execution_id_of j) events
          → HasEvent k start (execution_id_of j) events
      go in_progress p b = b
      go _ p b = cc

  begun :
      (x : Value)
      → named_execution start j block ≡ some x
      → x ≡ get_value execution_id_key block.metadata
  unfolding named_execution
  begun x n = elim (Bool-cases (is_notified j.status)) [
    | inl t ↦ sym (some_injective (rw t at n))
    | inr f ↦ cc (rw f at n)
  ]

  ran :
      (x : Value)
      → named_execution complete j block ≡ some x
      → (is_in_progress j.status ≡ true) × (x ≡ execution_id_of j)
  unfolding named_execution
  ran x n = elim (Bool-cases (is_in_progress j.status)) [
    | inl t ↦ (t, sym (some_injective (rw t at n)))
    | inr f ↦ cc (rw f at n)
  ]

  moved-Backed :
      (st : JobStatus)
      → Accepted j st block schedule execution release
      → Backed k j.status (execution_id_of j) events
      → Backed k st (get_value execution_id_key block.metadata) (events ++ new_events)
  moved-Backed reported accepted b = tt
  moved-Backed scheduled accepted b = tt
  moved-Backed notified accepted b = tt
  moved-Backed in_progress accepted b = elim (Bool-cases (is_in_progress j.status)) [
    | inl p ↦
        Logged-In (λ e i. In-append_left new_events i)
          (HasEvent-kind {kind = start} refl (sym (still_running in_progress accepted refl p))
            (started p b))
    | inr f ↦ gated-HasEvent in_progress accepted (start_required j.status f) begun
  ]
  moved-Backed completed accepted b =
      let (t, e, same, named) =
        gate-execution j completed block execution release accepted.gate
          (complete_required j.status) in
      let (p, n) = ran (text t.execution_id) named in
      let kept = sym (still_running completed accepted refl p) in
      (
        Logged-In (λ e i. In-append_left new_events i)
            (HasEvent-kind {kind = start} refl kept (started p b)),
        gated-HasEvent completed accepted (complete_required j.status) (λ x m. (ran x m).1 ∙ kept),
      )

-- After any successful write, a job that is in progress has its start event in the log, and a
-- completed one also has its completion event with after-work evidence, all of them naming the
-- execution that the row names, if this held before.
pub Step-AllBacked :
    {F : Type 0} (store store' : Store F) → AllBacked store → Step store store' → AllBacked store'
Step-AllBacked {F} store store' h s k j' r = elim (Option-cases (row k store.rows)) [
  | inl n ↦ cc (Step-absent k store n s)
  | inr (j, q) ↦
      let stepped = Step-Stepped k j store q s in
      subst (λ x. Backed k x.status (execution_id_of x) store'.events)
        (some_injective (sym stepped.stored ∙ r))
        (subst (Backed k stepped.after.status (execution_id_of stepped.after)) (sym stepped.log)
          (changed j stepped.after stepped.new_events (h k j q) stepped.change))
]
  where
    changed :
        (j x : Job F) (new_events : List JobEvent)
        → Backed k j.status (execution_id_of j) store.events
        → Change k j x new_events
        → Backed k x.status (execution_id_of x) (store.events ++ new_events)
    changed j x new_events b (unmoved e) =
        subst (λ y. Backed k y.status (execution_id_of y) (store.events ++ new_events)) (sym e)
          (Backed-append k j.status (execution_id_of j) store.events new_events b)
    changed j x new_events b (refused t c e) =
        subst (λ y. Backed k y (execution_id_of x) (store.events ++ new_events)) (sym e)
          (idle j.status t c)
      where
        idle :
            (y : JobStatus)
            → is_terminal y ≡ false
            → is_committed_status y ≡ false
            → Backed k y (execution_id_of x) (store.events ++ new_events)
        idle reported t c = tt
        idle scheduled t c = tt
        idle notified t c = cc
        idle in_progress t c = cc
        idle completed t c = cc
    changed j x new_events b (moved execution release accepted logged freed) =
        moved-Backed k j x.block_candidate (schedule_of x) execution release store.events new_events
          logged x.status accepted b
