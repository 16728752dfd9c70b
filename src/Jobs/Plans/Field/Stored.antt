-- ===== src/Jobs/Plans/Field/Stored.antt =====
-- lifecycle.py's `plan_execution_complete` and `plan_execution_not_completed`, run by repository.py's
-- `mutate_jobs`.
use pashupatastra_sih.Prelude.{
  ℤ, max_ℤ, ◌≡◌, refl, sym, subst, ap, ap₂, ◌∙◌, String, true, false, none, some, List, [], ◌∷◌,
  ◌++◌, keep, any, ==_iff, ◌==◌, All, find, arith,
}
use pashupatastra_sih.Prelude.Dict.{get, put}
use pashupatastra_sih.Result.{ok, ◌>>=◌, >>=-eq-ok, >>-eq-ok, >>=-ok, ok_injective}
use pashupatastra_sih.Contracts.{text, truthy, entries}
use pashupatastra_sih.Python.{Platform}
use pashupatastra_sih.Jobs.State.{
  JobStatus, in_progress, completed, Job, JobMutation, JobEvent, execution_completed,
  execution_not_completed, as_job, unchanged, value_eq, proposal_run_id_of,
}
use pashupatastra_sih.Jobs.Guards.{is_in_progress, is_empty, schedule_of}
use pashupatastra_sih.Jobs.Validation.{
  validate_execution_events, validate_release_events, tokens_from, check_tokens,
}
use pashupatastra_sih.Jobs.Store.{Store, Plan, list_for_job, row, mutate_jobs}
use pashupatastra_sih.Jobs.Execution.Ids.{is_execution_id}
use pashupatastra_sih.Jobs.Execution.Platform.{IsPlatform}
use pashupatastra_sih.Jobs.Execution.Evidence.{
  EvidenceItem, EvidencePhase, after_work, record_evidence, record_from,
}
use pashupatastra_sih.Jobs.Execution.Records.{
  ExecutionRecord, ended_complete, ended_not_complete, put_record, build_execution_records,
}
use pashupatastra_sih.Jobs.Execution.Reading.{IsItem}
use pashupatastra_sih.Jobs.Plans.Blocks.{
  withdrawn, without_placement, raise_not_before, require_nonblank,
}
use pashupatastra_sih.Jobs.Plans.Human.{decision_event, reject_mutation}
use pashupatastra_sih.Jobs.Plans.Runs.{single-mutate}
use pashupatastra_sih.Jobs.Plans.Written.{
  decided, Written, decided-Written, Unplaced, Between, no_run-without_placement,
}
use pashupatastra_sih.Jobs.Plans.Field.Outcome.{
  ExecutionEnd, complete_mutation, complete_event, plan_execution_complete, not_completed_mutation,
  not_completed_event, not_completed_plan, plan_execution_not_completed,
}
use pashupatastra_sih.Jobs.Plans.Field.Accepts.{validate_complete, validate-not_completed}
use pashupatastra_sih.Jobs.Plans.Field.Begun.{keep-append_one}
use pashupatastra_sih.Jobs.Plans.Field.Concluded.{plan-Completed, complete-rebuilt}
use pashupatastra_sih.Jobs.Plans.Field.Failed.{plan-Failed, not_completed-rebuilt}

is-in_progress : (s : JobStatus) → is_in_progress s ≡ true → s ≡ in_progress
is-in_progress s h = ground arith

recorded-truthy :
    (P : Platform) (evidence : List EvidenceItem) (phase : EvidencePhase)
    → is_empty evidence ≡ false
    → truthy (entries (record_evidence P evidence phase)) ≡ true
unfolding truthy record_evidence record_from
recorded-truthy P [] phase h = cc
recorded-truthy P (x ∷ evidence) phase h = refl

-- The token of a completion and its event agree.
completion-logged :
    {F : Type 0} (P : Platform) (j : Job F) (call : ExecutionEnd) (seen : ℤ × ℤ)
    (evidence : List EvidenceItem) (digest : String)
    → is_empty evidence ≡ false
    → let e = complete_event P j.job_id j call seen evidence digest in
      validate_execution_events (complete_mutation j call ∷ []) (e ∷ []) ≡ ok tt
unfolding validate_execution_events tokens_from check_tokens any keep put get complete_mutation
    unchanged complete_event decision_event value_eq
completion-logged P j call seen evidence digest shown =
    rw
      (
        (==_iff j.job_id j.job_id).1 refl,
        (==_iff call.execution_id call.execution_id).1 refl,
        recorded-truthy P evidence after_work shown,
      )
      refl

failure-logged :
    {F : Type 0} (P : Platform) (j : Job F) (call : ExecutionEnd) (reason : String)
    (released_end horizon : ℤ) (seen : ℤ × ℤ) (evidence : List EvidenceItem) (digest : String)
    → let e =
        not_completed_event P j.job_id j call reason released_end horizon seen evidence digest in
      validate_execution_events
        (not_completed_mutation j call reason released_end seen.1 horizon ∷ [])
        (e ∷ [])
      ≡ ok tt
unfolding validate_execution_events tokens_from check_tokens any keep put get not_completed_mutation
    reject_mutation withdrawn unchanged not_completed_event decision_event value_eq
failure-logged P j call reason released_end horizon seen evidence digest =
    rw ((==_iff j.job_id j.job_id).1 refl, (==_iff call.execution_id call.execution_id).1 refl) refl

-- The history of the job in the log with one more of its events.
log_grown :
    (k : String) (events : List JobEvent) (e : JobEvent) {es : List JobEvent}
    → (e.job_id == k) ≡ true
    → es ≡ e ∷ []
    → list_for_job k (events ++ (e ∷ [])) ≡ list_for_job k events ++ es
unfolding list_for_job
log_grown k events e h q =
    keep-append_one (λ x. x.job_id == k) events e h ∙ ap (λ v. list_for_job k events ++ v) (sym q)

-- Where the stored history of a job in progress holds the supplied record under its id, which is
-- well-formed, and the record's run is not empty and the evidence was constructed, a completion of
-- field work that is planned is written: the job is completed at its window with its block as it was,
-- no other row changes, and the one event appended is a completion of the record's run by the
-- caller's actor at its time. From the log that is stored then the records are those before, but
-- that the execution is completed, with the same digest and the same evidence from before the work.
pub complete-recorded :
    {F : Type 0} (P : Platform) (laws : IsPlatform P) (j : Job F) (call : ExecutionEnd)
    (store : Store F) {order : List ExecutionRecord} {ms : List (JobMutation F)}
    {es : List JobEvent}
    → row j.job_id store.rows ≡ some j
    → build_execution_records P j (list_for_job j.job_id store.events) ≡ ok order
    → find (λ r. r.execution_id == call.execution_id) order ≡ some call.execution
    → is_execution_id call.execution_id ≡ true
    → (call.execution.optimization_run_id == "") ≡ false
    → All (IsItem P) call.evidence
    → plan_execution_complete P j.job_id call ((j.job_id, j) ∷ []) ≡ ok (ms, es)
    → (after : Store F) × (j' : Job F) × (e : JobEvent) × (r : ExecutionRecord) × (mutate_jobs
          (j.job_id ∷ [])
          (plan_execution_complete P j.job_id call)
          true
          store
        ≡ ok after)
      × Written j.job_id j store execution_completed call.actor call.at_time none
          (text call.execution.optimization_run_id)
          after
          j'
          e
      × (j'.status ≡ completed)
      × (schedule_of j' ≡ schedule_of j)
      × (j'.block_candidate ≡ j.block_candidate)
      × (build_execution_records P j' (list_for_job j.job_id after.events)
          ≡ ok (put_record r order))
      × (r.status ≡ ended_complete)
      × (r.execution_id ≡ call.execution.execution_id)
      × (r.committed_block_digest ≡ call.execution.committed_block_digest)
      × (r.before_work_evidence ≡ call.execution.before_work_evidence)
unfolding validate_release_events tokens_from check_tokens any complete_event decision_event
    complete_mutation unchanged as_job
complete-recorded P laws j call store b0 b f x g items h =
    let p = plan-Completed P j call h in
    let (r, built, planned, ended, id, digest, before) =
      complete-rebuilt P laws j call (list_for_job j.job_id store.events) b f x g items h in
    let m = complete_mutation j call in
    let e = complete_event P j.job_id j call p.seen call.evidence p.digest in
    let status = is-in_progress j.status p.checks.running in
    let emitted : plan_execution_complete P j.job_id call ((j.job_id, j) ∷ [])
        ≡ ok (m ∷ [], e ∷ []) =
      h ∙ ap₂ (λ u v. ok (u, v)) p.mutation p.event in
    let run =
      single-mutate j.job_id (plan_execution_complete P j.job_id call) true store b0
        (rw status refl) emitted refl
        (validate_complete j call status p.checks.consistent p.checks.same_execution)
        (completion-logged P j call p.seen call.evidence p.digest p.shown) refl in
    (
      decided j.job_id m e store,
      as_job m j,
      e,
      r,
      run,
      decided-Written j.job_id j store execution_completed call.actor call.at_time none
          (text call.execution.optimization_run_id) e.metadata m b0 refl,
      refl,
      refl,
      refl,
      ap (build_execution_records P (as_job m j))
            (log_grown j.job_id store.events e ((==_iff j.job_id j.job_id).1 refl) p.event)
          ∙ built,
      ended,
      id,
      digest,
      before,
    )

-- Where the stored history of a job in progress holds the supplied record under its id, which is
-- well-formed, and the record's run is not empty and the evidence was constructed, a report of work
-- not completed that is planned is written: the job is reported without a placement or a run, with
-- the reason recorded, and no other row changes; its window starts at the latest of its earliest start,
-- of the end that it was scheduled to and of the minute at which the work ended, and ends at the
-- later of its latest end and the horizon. The one event appended is a non-completion of its run by
-- the caller's actor at its time for this reason. From the log that is stored then the records are
-- those before, but that the execution has ended with the reason and without a completion.
pub not_completed-recorded :
    {F : Type 0} (P : Platform) (laws : IsPlatform P) (j : Job F) (call : ExecutionEnd)
    (reason : String) (horizon : ℤ) (store : Store F) {order : List ExecutionRecord}
    {ms : List (JobMutation F)} {es : List JobEvent}
    → row j.job_id store.rows ≡ some j
    → build_execution_records P j (list_for_job j.job_id store.events) ≡ ok order
    → find (λ r. r.execution_id == call.execution_id) order ≡ some call.execution
    → is_execution_id call.execution_id ≡ true
    → (call.execution.optimization_run_id == "") ≡ false
    → All (IsItem P) call.evidence
    → (plan_execution_not_completed P j.job_id call reason horizon >>= λ plan.
        plan ((j.job_id, j) ∷ []))
      ≡ ok (ms, es)
    → (after : Store F) × (j' : Job F) × (e : JobEvent) × (r : ExecutionRecord) × (released_end : ℤ)
      × (ended_minute : ℤ) × ((plan_execution_not_completed P j.job_id call reason horizon
            >>= λ plan. mutate_jobs (j.job_id ∷ []) plan true store)
          ≡ ok after)
      × Written j.job_id j store execution_not_completed call.actor call.at_time
          (some reason)
          (proposal_run_id_of j)
          after
          j'
          e
      × Unplaced reason j'
      × (j.schedule_end_minute ≡ some released_end)
      × (r.actual_end_minute ≡ some ended_minute)
      × Between
          (max_ℤ j.block_candidate.earliest_start_minute (max_ℤ released_end ended_minute))
          (max_ℤ j.block_candidate.latest_end_minute horizon)
          j'
      × (build_execution_records P j' (list_for_job j.job_id after.events)
          ≡ ok (put_record r order))
      × (r.status ≡ ended_not_complete)
      × (r.not_completed_reason ≡ some reason)
      × (r.execution_id ≡ call.execution.execution_id)
unfolding plan_execution_not_completed validate_release_events tokens_from check_tokens any
    not_completed_event decision_event not_completed_mutation reject_mutation withdrawn
    without_placement raise_not_before unchanged as_job
not_completed-recorded {F} P laws j call reason horizon store {ms = ms} {es = es} b0 b f x g items
      h =
    let (plan, eq, h1) =
      >>=-eq-ok (plan_execution_not_completed P j.job_id call reason horizon) _ h in
    let (nonblank, made) = >>-eq-ok (require_nonblank reason) _ eq in
    let planned : not_completed_plan P j.job_id call reason horizon ((j.job_id, j) ∷ [])
        ≡ ok (ms, es) =
      subst (λ (q : Plan F). q ((j.job_id, j) ∷ []) ≡ ok (ms, es)) (sym (ok_injective made)) h1 in
    let p = plan-Failed P j call reason horizon planned in
    let (r, built, ended, because, id, minute) =
      not_completed-rebuilt P laws j call reason horizon (list_for_job j.job_id store.events) b f x
        g items nonblank p in
    let m = not_completed_mutation j call reason p.released_end p.seen.1 horizon in
    let e =
      not_completed_event P j.job_id j call reason p.released_end horizon p.seen call.evidence
        p.digest in
    let status = is-in_progress j.status p.checks.running in
    let emitted : not_completed_plan P j.job_id call reason horizon ((j.job_id, j) ∷ [])
        ≡ ok (m ∷ [], e ∷ []) =
      planned ∙ ap₂ (λ u v. ok (u, v)) p.mutation p.event in
    let run =
      single-mutate j.job_id (not_completed_plan P j.job_id call reason horizon) true store b0
        (rw status refl) emitted refl
        (validate-not_completed j call status p.checks.consistent p.checks.same_execution reason
          p.released_end p.seen.1 horizon)
        (failure-logged P j call reason p.released_end horizon p.seen call.evidence p.digest)
        refl in
    (
      decided j.job_id m e store,
      as_job m j,
      e,
      r,
      p.released_end,
      p.seen.1,
      >>=-ok (λ plan. mutate_jobs (j.job_id ∷ []) plan true store) (eq ∙ sym made) run,
      decided-Written j.job_id j store execution_not_completed call.actor call.at_time (some reason)
          (proposal_run_id_of j) e.metadata m b0 refl,
      record {
        is_reported = refl;
        no_window = refl;
        because = refl;
        block_status = refl;
        not_committed = refl;
        no_run = no_run-without_placement j.block_candidate;
      },
      p.releases,
      minute,
      record { starts = refl; ends = refl },
      ap (build_execution_records P (as_job m j))
            (log_grown j.job_id store.events e ((==_iff j.job_id j.job_id).1 refl) p.event)
          ∙ built,
      ended,
      because,
      id,
    )
