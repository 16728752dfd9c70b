-- ===== src/Jobs/Plans/Field/Recorded.antt =====
-- A start that lifecycle.py's `plan_execution_start` planned, in the records that execution.py's
-- `build_execution_records` makes of the history.
use pashupatastra_sih.Prelude.{
  ◌≤◌, ℤ, leb_ℤ, String, true, false, not, Option, none, some, List, [], ◌∷◌, ◌++◌, ◌≡◌, refl, sym,
  ap, ◌∙◌, subst, ==_iff, ◌==◌, any, keep, length, All, arith, not-eq_false,
}
use pashupatastra_sih.Prelude.Dict.{get-put}
use pashupatastra_sih.Prelude.Blank.{is_blank-filled}
use pashupatastra_sih.Result.{
  Result, ok, err, >>=-ok, >>=-eq-ok, >>-eq-ok, pass_not, raise_if, raise_if-ok, ok_injective,
  execution_integrity, invalid_transition, stale_proposal,
}
use pashupatastra_sih.Contracts.{Value, null, text}
use pashupatastra_sih.Python.{Platform}
use pashupatastra_sih.Jobs.State.{
  JobStatus, notified, Job, JobMutation, JobEvent, as_job, value_eq, execution_id_key,
  execution_id_of, proposal_run_id_of,
}
use pashupatastra_sih.Jobs.Values.{value_eq_sound}
use pashupatastra_sih.Jobs.Guards.{
  is_empty, is_notified, is_consistent, is_in_progress, committed_state_problems,
  assert_committed_state_consistent,
}
use pashupatastra_sih.Jobs.Accepted.{assert_single}
use pashupatastra_sih.Jobs.Events.{recorded-Parts}
use pashupatastra_sih.Jobs.Execution.Ids.{is_execution_id}
use pashupatastra_sih.Jobs.Execution.Platform.{IsPlatform}
use pashupatastra_sih.Jobs.Execution.Time.{
  parse_observed_at, require_not_in_future, observed_minute,
}
use pashupatastra_sih.Jobs.Execution.Evidence.{EvidenceItem, validate_evidence_set}
use pashupatastra_sih.Jobs.Execution.Sets.{validate_evidence_set-ValidSet}
use pashupatastra_sih.Jobs.Execution.Records.{
  ExecutionRecord, started, is_open, is_ended_complete, read_event, read_events,
  build_execution_records, open_records, row_agrees,
}
use pashupatastra_sih.Jobs.Execution.Reading.{IsItem, is_filled, read_events-append}
use pashupatastra_sih.Jobs.Plans.Blocks.{require_identified_human, require_nonblank}
use pashupatastra_sih.Jobs.Plans.Human.{is_stale}
use pashupatastra_sih.Jobs.Plans.Decisions.{lookup_self}
use pashupatastra_sih.Jobs.Plans.Field.{
  int_column, committed_block_digest, block_identity_digest, observations,
}
use pashupatastra_sih.Jobs.Plans.Field.Start.{
  ExecutionStart, contradicts_start, observe_start, start_event, start_mutation,
  plan_execution_start,
}
use pashupatastra_sih.Jobs.Plans.Field.Started.{opened, read-started, read-start}

-- The window of an approved job that starts.
planned_window :
    (s : JobStatus) {F : Type 0} (j : Job F) (a : ℤ) (e : Option ℤ)
    → is_notified s ≡ true
    → is_empty (committed_state_problems s j.block_candidate (some a, e)) ≡ true
    → (b : ℤ) × (e ≡ some b) × (leb_ℤ b a ≡ false)
unfolding committed_state_problems
planned_window notified j a none n h = let wrong : false ≡ true = ground arith in cc wrong
planned_window notified j a (some b) n h = (b, refl, ground arith)
planned_window _ j a e n h = cc

-- No execution before is open.
none-open :
    (job_id execution_id run : String) (order : List ExecutionRecord) (r : ExecutionRecord)
    → any (contradicts_start job_id execution_id run) order ≡ false
    → is_open r.status ≡ true
    → open_records (order ++ (r ∷ [])) ≡ r ∷ []
unfolding any keep
none-open job_id execution_id run [] r h o = rw o refl
none-open job_id execution_id run (x ∷ order) r h o =
    ground (arith, none-open job_id execution_id run order r)

-- What a start that was planned had passed.
pub record Planned {F : Type 0} (P : Platform) (j : Job F) (call : ExecutionStart)
    (ms : List (JobMutation F)) (es : List JobEvent) : Type 0 where
  pub consistent : is_consistent j ≡ true
  pub approved : is_notified j.status ≡ true
  pub run_filled : (call.expected_proposal_run_id == "") ≡ false
  pub of_run : proposal_run_id_of j ≡ text call.expected_proposal_run_id
  pub well_named : is_execution_id call.execution_id ≡ true
  pub uncontradicted :
      any
        (contradicts_start j.job_id call.execution_id call.expected_proposal_run_id)
        call.previous_executions
      ≡ false
  pub began : ℤ
  pub minute : ℤ
  pub planned_start : ℤ
  pub digest : String
  pub seen_evidence : is_empty call.before_work_evidence ≡ false
  pub of_digest :
      committed_block_digest P j call.corridor_id call.expected_proposal_run_id ≡ ok digest
  pub starts : j.schedule_start_minute ≡ some planned_start
  pub mutation : ms ≡ start_mutation j call ∷ []
  pub event :
      es
      ≡ start_event P j.job_id j call began call.before_work_evidence minute planned_start digest
        ∷ []

pub int_column-ok : (o : Option ℤ) {n : ℤ} → int_column o ≡ ok n → o ≡ some n
int_column-ok none h = cc
int_column-ok (some m) h = ap some (ok_injective h)

pub observations-ok {ℓ} : {A : Type ℓ} (r : Result A) {a : A} → observations r ≡ ok a → r ≡ ok a
observations-ok (ok b) h = h
observations-ok (err e) h = ground arith

pub at_least_one : (xs : List EvidenceItem) → 1 ≤ length xs → is_empty xs ≡ false
at_least_one [] c = ground arith
at_least_one (x ∷ xs) c = refl

observed :
    (P : Platform) (call : ExecutionStart) (now : ℤ) {seen : ℤ × List EvidenceItem}
    → observe_start P call now ≡ ok seen
    → (call.before_work_evidence ≡ seen.1) × (is_empty call.before_work_evidence ≡ false)
unfolding observe_start
observed P call now h =
    let (began, eb, h1) = >>=-eq-ok (parse_observed_at P call.actual_start_at) _ h in
    let (past, h2) = >>-eq-ok (require_not_in_future began now) _ h1 in
    let (evidence, ev, h3) =
      >>=-eq-ok (validate_evidence_set P call.before_work_evidence now 1 (some began) none []) _
        h2 in
    let (same, set) =
      validate_evidence_set-ValidSet P call.before_work_evidence now 1 (some began) none [] ev in
    (same ∙ ap (λ s. s.1) (ok_injective h3), at_least_one call.before_work_evidence set.enough)

pub plan-Planned :
    {F : Type 0} (P : Platform) (j : Job F) (call : ExecutionStart) {ms : List (JobMutation F)}
    {es : List JobEvent}
    → plan_execution_start P j.job_id call ((j.job_id, j) ∷ []) ≡ ok (ms, es)
    → Planned P j call ms es
unfolding plan_execution_start
plan-Planned P j call {es = es} h =
    let h0 = sym (>>=-ok _ (lookup_self j.job_id j) refl) ∙ h in
    let (a, h1) = >>-eq-ok (assert_committed_state_consistent (j ∷ [])) _ h0 in
    let (b, h2) = >>-eq-ok (raise_if (not (is_notified j.status)) invalid_transition) _ h1 in
    let (c, h3) = >>-eq-ok (require_identified_human call.actor) _ h2 in
    let (d, h4) = >>-eq-ok (require_nonblank call.expected_proposal_run_id) _ h3 in
    let (e, h5) =
      >>-eq-ok
        (raise_if (is_stale (some call.expected_proposal_run_id) (proposal_run_id_of j))
          stale_proposal)
        _ h4 in
    let (f, h6) =
      >>-eq-ok (raise_if (not (is_execution_id call.execution_id)) invalid_transition) _ h5 in
    let (g, h7) =
      >>-eq-ok
        (raise_if
          (any (contradicts_start j.job_id call.execution_id call.expected_proposal_run_id)
            call.previous_executions)
          execution_integrity)
        _ h6 in
    let (now, en, h8) = >>=-eq-ok (parse_observed_at P call.at_time) _ h7 in
    let (seen, eo, h9) = >>=-eq-ok (observations (observe_start P call now)) _ h8 in
    let (minute, em, h10) =
      >>=-eq-ok (observations (observed_minute P seen.0 call.horizon_start false)) _ h9 in
    let (digest, ed, h11) =
      >>=-eq-ok (committed_block_digest P j call.corridor_id call.expected_proposal_run_id) _ h10 in
    let (planned_start, eps, h12) = >>=-eq-ok (int_column j.schedule_start_minute) _ h11 in
    let (same, filled) = observed P call now (observations-ok _ eo) in
    let parts =
      recorded-Parts (start_mutation j call)
        (start_event P j.job_id j call seen.0 seen.1 minute planned_start digest) h12 in
    record {
      consistent = assert_single j a;
      approved = not-eq_false (is_notified j.status) (raise_if-ok _ _ b);
      run_filled = is_blank-filled call.expected_proposal_run_id (raise_if-ok _ _ d);
      of_run = sym (
          value_eq_sound (text call.expected_proposal_run_id) (proposal_run_id_of j)
            (not-eq_false _ (raise_if-ok _ _ e)));
      well_named = not-eq_false (is_execution_id call.execution_id) (raise_if-ok _ _ f);
      uncontradicted = raise_if-ok _ _ g;
      began = seen.0;
      minute = minute;
      planned_start = planned_start;
      digest = digest;
      seen_evidence = filled;
      of_digest = ed;
      starts = int_column-ok j.schedule_start_minute eps;
      mutation = parts.0;
      event =
          subst (λ v. es ≡ start_event P j.job_id j call seen.0 v minute planned_start digest ∷ [])
            (sym same) parts.1;
    }

pub digest-filled :
    {F : Type 0} (P : Platform) (laws : IsPlatform P) (j : Job F) (corridor_id run : String)
    (s t : Option ℤ) {digest : String}
    → j.schedule_start_minute ≡ s
    → j.schedule_end_minute ≡ t
    → committed_block_digest P j corridor_id run ≡ ok digest
    → (digest == "") ≡ false
unfolding committed_block_digest block_identity_digest
digest-filled P laws j corridor_id run (some s) (some t) a b h =
    subst (λ d. (d == "") ≡ false) (ok_injective (rw (a, b) at h)) (laws.digest_filled _)
digest-filled P laws j corridor_id run none t a b h = cc (rw a at h)
digest-filled P laws j corridor_id run (some s) none a b h = cc (rw (a, b) at h)

-- The records of a history are those of its events.
pub records-read :
    {F : Type 0} (P : Platform) (j : Job F) (history : List JobEvent) {order : List ExecutionRecord}
    → build_execution_records P j history ≡ ok order
    → read_events P j.job_id [] history ≡ ok order
unfolding build_execution_records
records-read P j history b =
    let (records, e, q) = >>=-eq-ok (read_events P j.job_id [] history) _ b in
    let (agrees, same) =
      >>-eq-ok
        (raise_if
          (not (row_agrees (is_in_progress j.status) (execution_id_of j) (open_records records)))
          execution_integrity)
        _ q in
    e ∙ same

-- One more event of a history.
pub read-one_more :
    (P : Platform) (job_id : String) (history : List JobEvent) (e : JobEvent)
    {order next : List ExecutionRecord}
    → read_events P job_id [] history ≡ ok order
    → read_event P job_id e order ≡ ok next
    → read_events P job_id [] (history ++ (e ∷ [])) ≡ ok next
unfolding read_events
read-one_more P job_id history e h n =
    read_events-append P job_id [] history (e ∷ []) ∙ >>=-ok _ h (>>=-ok _ n refl)

started-agrees :
    {F : Type 0} (j : Job F) (call : ExecutionStart) (order : List ExecutionRecord)
    (r : ExecutionRecord)
    → any (contradicts_start j.job_id call.execution_id call.expected_proposal_run_id) order ≡ false
    → r.status ≡ started
    → r.execution_id ≡ call.execution_id
    → row_agrees true
        (execution_id_of (as_job (start_mutation j call) j))
        (open_records (order ++ (r ∷ [])))
      ≡ true
unfolding start_mutation as_job value_eq
started-agrees j call order r h o i =
    rw (none-open j.job_id call.execution_id call.expected_proposal_run_id order r h (rw o refl)) (
      subst (λ v. value_eq (text r.execution_id) v ≡ true) (sym named)
        ((==_iff r.execution_id call.execution_id).1 i))
  where
    named : execution_id_of (as_job (start_mutation j call) j) ≡ text call.execution_id
    named =
        ap (λ (o : Option Value). elim o [ none ↦ null | some v ↦ v ])
          (get-put execution_id_key execution_id_key (text call.execution_id)
            j.block_candidate.metadata)

-- Where the history of an approved job holds no completed execution, a start of field work that is
-- planned writes one event, from which the records of the longer history are rebuilt as the
-- previous ones and one more: the open execution of the call, under the digest of the block that was
-- approved.
pub start-recorded :
    {F : Type 0} (P : Platform) (laws : IsPlatform P) (j : Job F) (call : ExecutionStart)
    (history : List JobEvent) {ms : List (JobMutation F)} {es : List JobEvent}
    → build_execution_records P j history ≡ ok call.previous_executions
    → any (λ r. is_ended_complete r.status) call.previous_executions ≡ false
    → (j.track_id == "") ≡ false
    → is_filled j.block_candidate.section_id ≡ true
    → All (IsItem P) call.before_work_evidence
    → plan_execution_start P j.job_id call ((j.job_id, j) ∷ []) ≡ ok (ms, es)
    → (r : ExecutionRecord) × (build_execution_records P
          (as_job (start_mutation j call) j)
          (history ++ es)
        ≡ ok (call.previous_executions ++ (r ∷ [])))
      × (ms ≡ start_mutation j call ∷ [])
      × (r.execution_id ≡ call.execution_id)
      × (r.status ≡ started)
      × (committed_block_digest P j call.corridor_id call.expected_proposal_run_id
          ≡ ok r.committed_block_digest)
unfolding build_execution_records start_mutation as_job
start-recorded P laws j call history {ms = ms} {es = es} b c t s i h =
    let p = plan-Planned P j call h in
    let consistent = rw p.starts at p.consistent in
    let (end, e, w) =
      planned_window j.status j p.planned_start j.schedule_end_minute p.approved consistent in
    let evidence = call.before_work_evidence in
    let r = opened P laws j call p.began evidence p.minute p.planned_start end p.digest in
    let filled =
      digest-filled P laws j call.corridor_id call.expected_proposal_run_id (some p.planned_start)
        (some end) p.starts e p.of_digest in
    let read =
      read-start P laws j call p.began evidence p.minute p.planned_start end p.digest p.well_named
        p.run_filled p.of_run
        (read-started P laws j call p.began evidence p.minute p.planned_start end p.digest
          p.uncontradicted c e w filled t s i p.seen_evidence) in
    let logged : read_events P j.job_id [] (history ++ es)
        ≡ ok (call.previous_executions ++ (r ∷ [])) =
      subst
        (λ v. read_events P j.job_id [] (history ++ v) ≡ ok (call.previous_executions ++ (r ∷ [])))
        (sym p.event) (read-one_more P j.job_id history _ (records-read P j history b) read) in
    let agrees = started-agrees j call call.previous_executions r p.uncontradicted refl refl in
    (
      r,
      >>=-ok _ logged (pass_not execution_integrity agrees refl),
      p.mutation,
      refl,
      refl,
      p.of_digest,
    )
