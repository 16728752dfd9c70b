-- ===== src/Jobs/Plans/Field/Concluded.antt =====
-- An outcome that lifecycle.py's `plan_execution_complete` or `plan_execution_not_completed` planned,
-- in the records that execution.py's `build_execution_records` makes of the history.
use pashupatastra_sih.Prelude.{
  ℤ, String, Bool, true, false, none, some, List, [], ◌∷◌, ◌++◌, ◌≡◌, refl, sym, ap, ◌∙◌, subst,
  ◌==◌, find, All, map,
}
use pashupatastra_sih.Result.{
  ok, >>=-eq-ok, >>-eq-ok, >>=-ok, pass_not, ok_injective, execution_integrity,
}
use pashupatastra_sih.Python.{Platform}
use pashupatastra_sih.Jobs.State.{Job, JobMutation, JobEvent, as_job, unchanged, execution_id_of}
use pashupatastra_sih.Jobs.Guards.{is_in_progress, is_empty}
use pashupatastra_sih.Jobs.Events.{recorded-Parts}
use pashupatastra_sih.Jobs.Execution.Ids.{is_execution_id}
use pashupatastra_sih.Jobs.Execution.Platform.{IsPlatform}
use pashupatastra_sih.Jobs.Execution.Time.{parse_observed_at}
use pashupatastra_sih.Jobs.Execution.Evidence.{EvidenceItem, validate_evidence_set, captured_moment}
use pashupatastra_sih.Jobs.Execution.Sets.{validate_evidence_set-ValidSet}
use pashupatastra_sih.Jobs.Execution.Records.{
  ExecutionRecord, ended_complete, is_open, put_record, read_events, open_records, row_agrees,
  build_execution_records,
}
use pashupatastra_sih.Jobs.Execution.Coherent.Derived.{Agreed, build_execution_records-Coherent}
use pashupatastra_sih.Jobs.Execution.Reading.{IsItem}
use pashupatastra_sih.Jobs.Plans.Blocks.{require_identified_human}
use pashupatastra_sih.Jobs.Plans.Decisions.{lookup_self}
use pashupatastra_sih.Jobs.Plans.Field.{observations}
use pashupatastra_sih.Jobs.Plans.Field.Outcome.{
  ExecutionEnd, open_execution_checks, observe_end, observe_complete, complete_mutation,
  complete_event, plan_execution_complete,
}
use pashupatastra_sih.Jobs.Plans.Field.Recorded.{
  at_least_one, observations-ok, digest-filled, records-read, read-one_more,
}
use pashupatastra_sih.Jobs.Plans.Field.Closed.{
  Checked, checks-Checked, Observed, observe-Observed, open_records-put,
}
use pashupatastra_sih.Jobs.Plans.Field.Ended.{completed_record, read-completed, read-completion}

-- What a completion that was planned had passed.
pub record Completed {F : Type 0} (P : Platform) (j : Job F) (call : ExecutionEnd)
    (ms : List (JobMutation F)) (es : List JobEvent) : Type 0 where
  pub digest : String
  pub checks : Checked P j call.execution_id call.execution call.corridor_id digest
  pub seen : ℤ × ℤ
  pub end : Observed P call seen
  pub shown : is_empty call.evidence ≡ false
  pub mutation : ms ≡ complete_mutation j call ∷ []
  pub event : es ≡ complete_event P j.job_id j call seen call.evidence digest ∷ []

observe_complete-Observed :
    (P : Platform) (call : ExecutionEnd) (now : ℤ) {v : (ℤ × ℤ) × List EvidenceItem}
    → observe_complete P call now ≡ ok v
    → Observed P call v.0 × (call.evidence ≡ v.1) × (is_empty call.evidence ≡ false)
unfolding observe_complete
observe_complete-Observed P call now h =
    let (seen, e, h1) = >>=-eq-ok (observe_end P call now) _ h in
    let (began, eb, h2) = >>=-eq-ok (captured_moment P call.execution.actual_start_at) _ h1 in
    let forbidden = map (λ r. r.item.evidence_reference) call.execution.before_work_evidence in
    let (evidence, ev, h3) =
      >>=-eq-ok (validate_evidence_set P call.evidence now 1 none (some began) forbidden) _ h2 in
    let (same, set) =
      validate_evidence_set-ValidSet P call.evidence now 1 none (some began) forbidden ev in
    let last = ok_injective h3 in
    (
      subst (Observed P call) (ap (λ v. v.0) last) (observe-Observed P call now e),
      same ∙ ap (λ v. v.1) last,
      at_least_one call.evidence set.enough,
    )

pub plan-Completed :
    {F : Type 0} (P : Platform) (j : Job F) (call : ExecutionEnd) {ms : List (JobMutation F)}
    {es : List JobEvent}
    → plan_execution_complete P j.job_id call ((j.job_id, j) ∷ []) ≡ ok (ms, es)
    → Completed P j call ms es
unfolding plan_execution_complete
plan-Completed P j call {es = es} h =
    let h0 = sym (>>=-ok _ (lookup_self j.job_id j) refl) ∙ h in
    let (digest, ed, h1) =
      >>=-eq-ok (open_execution_checks P j call.execution_id call.execution call.corridor_id) _
        h0 in
    let (person, h2) = >>-eq-ok (require_identified_human call.actor) _ h1 in
    let (now, en, h3) = >>=-eq-ok (parse_observed_at P call.at_time) _ h2 in
    let (v, eo, h4) = >>=-eq-ok (observations (observe_complete P call now)) _ h3 in
    let (end, same, shown) = observe_complete-Observed P call now (observations-ok _ eo) in
    let parts =
      recorded-Parts (complete_mutation j call) (complete_event P j.job_id j call v.0 v.1 digest)
        h4 in
    record {
      digest = digest;
      checks = checks-Checked P j call.execution_id call.execution call.corridor_id ed;
      seen = v.0;
      end = end;
      shown = shown;
      mutation = parts.0;
      event =
          subst (λ w. es ≡ complete_event P j.job_id j call v.0 w digest ∷ []) (sym same) parts.1;
    }

-- No execution is open after an outcome of the current one.
pub none-open :
    {F : Type 0} (P : Platform) (j : Job F) (k : String) (r new : ExecutionRecord)
    (history : List JobEvent) {order : List ExecutionRecord}
    → build_execution_records P j history ≡ ok order
    → is_in_progress j.status ≡ true
    → find (λ x. x.execution_id == k) order ≡ some r
    → is_open r.status ≡ true
    → new.execution_id ≡ k
    → is_open new.status ≡ false
    → open_records (put_record new order) ≡ []
none-open P j k r new history {order} b running f o i c =
    let (coherent, agrees) = build_execution_records-Coherent P j history b in
    let (x, one, named) = subst (λ (b : Bool). Agreed b (execution_id_of j) order) running agrees in
    open_records-put k r new order f o i c one

-- The records of the history with one more event, for a row that is not in progress.
pub closed-records :
    {F : Type 0} (P : Platform) (j new_row : Job F) (history : List JobEvent) (e : JobEvent)
    {es : List JobEvent} {next : List ExecutionRecord}
    → new_row.job_id ≡ j.job_id
    → is_in_progress new_row.status ≡ false
    → es ≡ e ∷ []
    → read_events P j.job_id [] (history ++ (e ∷ [])) ≡ ok next
    → open_records next ≡ []
    → build_execution_records P new_row (history ++ es) ≡ ok next
unfolding build_execution_records
closed-records P j new_row history e {es = es} {next = next} i s q h o =
    let logged : read_events P new_row.job_id [] (history ++ es) ≡ ok next = rw (i, q) h in
    let agrees : row_agrees (is_in_progress new_row.status) (execution_id_of new_row)
          (open_records next)
        ≡ true =
      rw (s, o) refl in
    >>=-ok _ logged (pass_not execution_integrity agrees refl)

-- The records of the history with the event of a completion.
pub complete-rebuilt :
    {F : Type 0} (P : Platform) (laws : IsPlatform P) (j : Job F) (call : ExecutionEnd)
    (history : List JobEvent) {order : List ExecutionRecord} {ms : List (JobMutation F)}
    {es : List JobEvent}
    → build_execution_records P j history ≡ ok order
    → find (λ r. r.execution_id == call.execution_id) order ≡ some call.execution
    → is_execution_id call.execution_id ≡ true
    → (call.execution.optimization_run_id == "") ≡ false
    → All (IsItem P) call.evidence
    → plan_execution_complete P j.job_id call ((j.job_id, j) ∷ []) ≡ ok (ms, es)
    → (r : ExecutionRecord) × (build_execution_records P
          (as_job (complete_mutation j call) j)
          (history ++ es)
        ≡ ok (put_record r order))
      × (ms ≡ complete_mutation j call ∷ [])
      × (r.status ≡ ended_complete)
      × (r.execution_id ≡ call.execution.execution_id)
      × (r.committed_block_digest ≡ call.execution.committed_block_digest)
      × (r.before_work_evidence ≡ call.execution.before_work_evidence)
unfolding complete_mutation as_job unchanged
complete-rebuilt P laws j call history {order} b f x g items h =
    let p = plan-Completed P j call h in
    let current = p.checks.current in
    let run = call.execution.optimization_run_id in
    let filled =
      digest-filled P laws j call.corridor_id run j.schedule_start_minute j.schedule_end_minute refl
        refl p.checks.of_block in
    let r = completed_record P laws j call p.seen call.evidence p.digest in
    let ended =
      read-completed P laws j call p.seen call.evidence p.digest filled p.checks.same_digest p.end
        items p.shown in
    let read =
      read-completion P laws j call p.seen call.evidence p.digest order f x g current ended in
    let logged = read-one_more P j.job_id history _ (records-read P j history b) read in
    let closed =
      none-open P j call.execution_id call.execution r history b p.checks.running f current.open_now
        current.named refl in
    (
      r,
      closed-records P j (as_job (complete_mutation j call) j) history _ refl refl p.event logged
          closed,
      p.mutation,
      refl,
      refl,
      refl,
      refl,
    )
