-- ===== src/Jobs/Plans/Field/Failed.antt =====
-- An outcome that lifecycle.py's `plan_execution_not_completed` planned, in the records that
-- execution.py's `build_execution_records` makes of the history.
use pashupatastra_sih.Prelude.{
  ℤ, String, true, false, none, some, List, [], ◌∷◌, ◌++◌, ◌≡◌, refl, sym, ap, ◌∙◌, subst, ◌==◌,
  find, All,
}
use pashupatastra_sih.Result.{ok, >>=-eq-ok, >>-eq-ok, >>=-ok, raise_if-ok, ok_injective}
use pashupatastra_sih.Python.{Platform}
use pashupatastra_sih.Jobs.State.{Job, JobMutation, JobEvent, as_job, unchanged}
use pashupatastra_sih.Jobs.Events.{recorded-Parts}
use pashupatastra_sih.Jobs.Execution.Ids.{is_execution_id}
use pashupatastra_sih.Jobs.Execution.Platform.{IsPlatform}
use pashupatastra_sih.Jobs.Execution.Time.{parse_observed_at}
use pashupatastra_sih.Jobs.Execution.Evidence.{EvidenceItem, validate_evidence_set}
use pashupatastra_sih.Jobs.Execution.Sets.{validate_evidence_set-ValidSet}
use pashupatastra_sih.Jobs.Execution.Records.{
  ExecutionRecord, ended_not_complete, put_record, build_execution_records,
}
use pashupatastra_sih.Jobs.Execution.Reading.{IsItem}
use pashupatastra_sih.Jobs.Plans.Blocks.{require_identified_human, withdrawn}
use pashupatastra_sih.Jobs.Plans.Human.{reject_mutation}
use pashupatastra_sih.Jobs.Plans.Decisions.{lookup_self}
use pashupatastra_sih.Jobs.Plans.Field.{int_column, observations}
use pashupatastra_sih.Jobs.Plans.Field.Outcome.{
  ExecutionEnd, open_execution_checks, observe_end, observe_not_completed, not_completed_mutation,
  not_completed_event, not_completed_plan,
}
use pashupatastra_sih.Jobs.Plans.Field.Recorded.{
  observations-ok, digest-filled, records-read, read-one_more,
}
use pashupatastra_sih.Jobs.Plans.Field.Closed.{Checked, checks-Checked, Observed, observe-Observed}
use pashupatastra_sih.Jobs.Plans.Field.Ended.{failed_record, read-failed, read-failure}
use pashupatastra_sih.Jobs.Plans.Blocks.{require_nonblank}
use pashupatastra_sih.Jobs.Plans.Field.Recorded.{int_column-ok}
use pashupatastra_sih.Jobs.Plans.Field.Concluded.{none-open, closed-records}

-- What a report of work not completed had passed.
pub record Failed {F : Type 0} (P : Platform) (j : Job F) (call : ExecutionEnd) (reason : String)
    (horizon : ℤ) (ms : List (JobMutation F)) (es : List JobEvent) : Type 0 where
  pub digest : String
  pub checks : Checked P j call.execution_id call.execution call.corridor_id digest
  pub seen : ℤ × ℤ
  pub end : Observed P call seen
  pub released_end : ℤ
  pub releases : j.schedule_end_minute ≡ some released_end
  pub mutation : ms ≡ not_completed_mutation j call reason released_end seen.1 horizon ∷ []
  pub event :
      es
      ≡ not_completed_event P j.job_id j call reason released_end horizon seen call.evidence digest
        ∷ []

observe_not_completed-Observed :
    (P : Platform) (call : ExecutionEnd) (now : ℤ) {v : (ℤ × ℤ) × List EvidenceItem}
    → observe_not_completed P call now ≡ ok v
    → Observed P call v.0 × (call.evidence ≡ v.1)
unfolding observe_not_completed
observe_not_completed-Observed P call now h =
    let (seen, e, h1) = >>=-eq-ok (observe_end P call now) _ h in
    let (evidence, ev, h2) =
      >>=-eq-ok (validate_evidence_set P call.evidence now 0 none none []) _ h1 in
    let (same, set) = validate_evidence_set-ValidSet P call.evidence now 0 none none [] ev in
    let last = ok_injective h2 in
    (
      subst (Observed P call) (ap (λ v. v.0) last) (observe-Observed P call now e),
      same ∙ ap (λ v. v.1) last,
    )

pub plan-Failed :
    {F : Type 0} (P : Platform) (j : Job F) (call : ExecutionEnd) (reason : String) (horizon : ℤ)
    {ms : List (JobMutation F)} {es : List JobEvent}
    → not_completed_plan P j.job_id call reason horizon ((j.job_id, j) ∷ []) ≡ ok (ms, es)
    → Failed P j call reason horizon ms es
unfolding not_completed_plan
plan-Failed P j call reason horizon {es = es} h =
    let h0 = sym (>>=-ok _ (lookup_self j.job_id j) refl) ∙ h in
    let (digest, ed, h1) =
      >>=-eq-ok (open_execution_checks P j call.execution_id call.execution call.corridor_id) _
        h0 in
    let (person, h2) = >>-eq-ok (require_identified_human call.actor) _ h1 in
    let (now, en, h3) = >>=-eq-ok (parse_observed_at P call.at_time) _ h2 in
    let (v, eo, h4) = >>=-eq-ok (observations (observe_not_completed P call now)) _ h3 in
    let (released_end, er, h5) = >>=-eq-ok (int_column j.schedule_end_minute) _ h4 in
    let (end, same) = observe_not_completed-Observed P call now (observations-ok _ eo) in
    let parts =
      recorded-Parts (not_completed_mutation j call reason released_end v.0.1 horizon)
        (not_completed_event P j.job_id j call reason released_end horizon v.0 v.1 digest) h5 in
    record {
      digest = digest;
      checks = checks-Checked P j call.execution_id call.execution call.corridor_id ed;
      seen = v.0;
      end = end;
      released_end = released_end;
      releases = int_column-ok j.schedule_end_minute er;
      mutation = parts.0;
      event =
          subst
            (λ w.
              es
              ≡ not_completed_event P j.job_id j call reason released_end horizon v.0 w digest ∷ [])
            (sym same) parts.1;
    }

-- The records of the history with the event of a report of work not completed.
pub not_completed-rebuilt :
    {F : Type 0} (P : Platform) (laws : IsPlatform P) (j : Job F) (call : ExecutionEnd)
    (reason : String) (horizon : ℤ) (history : List JobEvent) {order : List ExecutionRecord}
    {ms : List (JobMutation F)} {es : List JobEvent}
    → build_execution_records P j history ≡ ok order
    → find (λ r. r.execution_id == call.execution_id) order ≡ some call.execution
    → is_execution_id call.execution_id ≡ true
    → (call.execution.optimization_run_id == "") ≡ false
    → All (IsItem P) call.evidence
    → require_nonblank reason ≡ ok tt
    → (p : Failed P j call reason horizon ms es)
    → let m = not_completed_mutation j call reason p.released_end p.seen.1 horizon in
      (r : ExecutionRecord) × (build_execution_records P (as_job m j) (history ++ es)
        ≡ ok (put_record r order))
      × (r.status ≡ ended_not_complete)
      × (r.not_completed_reason ≡ some reason)
      × (r.execution_id ≡ call.execution.execution_id)
      × (r.actual_end_minute ≡ some p.seen.1)
unfolding not_completed_mutation reject_mutation withdrawn as_job unchanged
not_completed-rebuilt P laws j call reason horizon history {order = order} b f x g items nonblank
      p =
    let current = p.checks.current in
    let run = call.execution.optimization_run_id in
    let filled =
      digest-filled P laws j call.corridor_id run j.schedule_start_minute j.schedule_end_minute refl
        refl p.checks.of_block in
    let m = not_completed_mutation j call reason p.released_end p.seen.1 horizon in
    let r =
      failed_record P laws j call reason p.released_end horizon p.seen call.evidence p.digest in
    let ended =
      read-failed P laws j call reason p.released_end horizon p.seen call.evidence p.digest filled
        p.checks.same_digest (raise_if-ok _ _ nonblank) p.end items in
    let read =
      read-failure P laws j call reason p.released_end horizon p.seen call.evidence p.digest order f
        x g current ended in
    let logged = read-one_more P j.job_id history _ (records-read P j history b) read in
    let closed =
      none-open P j call.execution_id call.execution r history b p.checks.running f current.open_now
        current.named refl in
    (
      r,
      closed-records P j (as_job m j) history _ refl refl p.event logged closed,
      refl,
      refl,
      refl,
      refl,
    )
