-- ===== src/Jobs/Plans/Field/Begun.antt =====
-- lifecycle.py's `plan_execution_start`, run by repository.py's `mutate_jobs`.
use pashupatastra_sih.Prelude.{
  ℤ, ◌≡◌, refl, sym, ap, ap₂, ◌∙◌, String, Bool, true, false, some, List, [], ◌∷◌, ◌++◌, keep, any,
  ==_iff, ◌==◌, All, arith, inl, inr, Bool-cases,
}
use pashupatastra_sih.Prelude.Dict.{get, put}
use pashupatastra_sih.Result.{ok}
use pashupatastra_sih.Python.{Platform}
use pashupatastra_sih.Jobs.State.{
  JobStatus, notified, Job, JobMutation, JobEvent, as_job, unchanged, value_eq,
}
use pashupatastra_sih.Jobs.Guards.{is_notified}
use pashupatastra_sih.Jobs.Validation.{
  validate_execution_events, validate_release_events, tokens_from, check_tokens,
}
use pashupatastra_sih.Jobs.Store.{Store, row, update, list_for_job, mutate_jobs}
use pashupatastra_sih.Jobs.Rows.{row-update}
use pashupatastra_sih.Jobs.Execution.Ids.{is_execution_id-filled}
use pashupatastra_sih.Jobs.Execution.Platform.{IsPlatform}
use pashupatastra_sih.Jobs.Execution.Evidence.{EvidenceItem}
use pashupatastra_sih.Jobs.Execution.Records.{
  ExecutionRecord, started, is_ended_complete, build_execution_records,
}
use pashupatastra_sih.Jobs.Execution.Reading.{IsItem, is_filled}
use pashupatastra_sih.Jobs.Plans.Human.{decision_event}
use pashupatastra_sih.Jobs.Plans.Runs.{single-mutate}
use pashupatastra_sih.Jobs.Plans.Field.Start.{
  ExecutionStart, start_event, start_mutation, plan_execution_start,
}
use pashupatastra_sih.Jobs.Plans.Field.Recorded.{plan-Planned, start-recorded}
use pashupatastra_sih.Jobs.Plans.Field.Accepts.{validate-start}

is-notified : (s : JobStatus) → is_notified s ≡ true → s ≡ notified
is-notified s h = ground arith

pub keep-append_one :
    (p : JobEvent → Bool) (xs : List JobEvent) (e : JobEvent)
    → p e ≡ true
    → keep p (xs ++ (e ∷ [])) ≡ keep p xs ++ (e ∷ [])
unfolding keep
keep-append_one p [] e h = rw h refl
keep-append_one p (x ∷ xs) e h = elim (Bool-cases (p x)) [
  | inl t ↦ rw t (ap (λ ys. x ∷ ys) (keep-append_one p xs e h))
  | inr f ↦ rw f (keep-append_one p xs e h)
]

-- The token of the start and its event agree.
start-logged :
    {F : Type 0} (P : Platform) (j : Job F) (call : ExecutionStart) (began : ℤ)
    (evidence : List EvidenceItem) (minute planned_start : ℤ) (digest : String)
    → let e = start_event P j.job_id j call began evidence minute planned_start digest in
      validate_execution_events (start_mutation j call ∷ []) (e ∷ []) ≡ ok tt
unfolding validate_execution_events tokens_from check_tokens any keep put get start_mutation
    unchanged start_event decision_event value_eq
start-logged P j call began evidence minute planned_start digest =
    rw ((==_iff j.job_id j.job_id).1 refl, (==_iff call.execution_id call.execution_id).1 refl) refl

-- Where the stored history of an approved job holds no completed execution, a start of field work that
-- is planned is written and logged, and from the log that is stored then the records are the
-- previous ones and one more, the started execution of the call.
pub start-begins :
    {F : Type 0} (P : Platform) (laws : IsPlatform P) (j : Job F) (call : ExecutionStart)
    (store : Store F) {ms : List (JobMutation F)} {es : List JobEvent}
    → row j.job_id store.rows ≡ some j
    → build_execution_records P j (list_for_job j.job_id store.events) ≡ ok call.previous_executions
    → any (λ r. is_ended_complete r.status) call.previous_executions ≡ false
    → (j.track_id == "") ≡ false
    → is_filled j.block_candidate.section_id ≡ true
    → All (IsItem P) call.before_work_evidence
    → plan_execution_start P j.job_id call ((j.job_id, j) ∷ []) ≡ ok (ms, es)
    → (after : Store F) × (started_job : Job F) × (r : ExecutionRecord) × (mutate_jobs
          (j.job_id ∷ [])
          (plan_execution_start P j.job_id call)
          true
          store
        ≡ ok after)
      × (row j.job_id after.rows ≡ some started_job)
      × (build_execution_records P started_job (list_for_job j.job_id after.events)
          ≡ ok (call.previous_executions ++ (r ∷ [])))
      × (r.execution_id ≡ call.execution_id)
      × (r.status ≡ started)
unfolding list_for_job validate_release_events tokens_from check_tokens any start_event
    decision_event start_mutation unchanged as_job
start-begins {F} P laws j call store {ms} {es} k b c t s i h =
    let p = plan-Planned P j call h in
    let (r, built, planned, id, open_now, digest) =
      start-recorded P laws j call (list_for_job j.job_id store.events) b c t s i h in
    let e =
      start_event P j.job_id j call p.began call.before_work_evidence p.minute p.planned_start
        p.digest in
    let status = is-notified j.status p.approved in
    let emitted : plan_execution_start P j.job_id call ((j.job_id, j) ∷ [])
        ≡ ok (start_mutation j call ∷ [], e ∷ []) =
      h ∙ ap₂ (λ x y. ok (x, y)) p.mutation p.event in
    let run =
      single-mutate j.job_id (plan_execution_start P j.job_id call) true store k (rw status refl)
        emitted refl
        (validate-start j call status p.consistent
          (is_execution_id-filled call.execution_id p.well_named))
        (start-logged P j call p.began call.before_work_evidence p.minute p.planned_start p.digest)
        refl in
    let stored : row j.job_id (update j.job_id (as_job (start_mutation j call)) store.rows)
        ≡ some (as_job (start_mutation j call) j) =
      row-update j.job_id (as_job (start_mutation j call)) j.job_id store.rows (λ _. refl)
      ∙ rw ((==_iff j.job_id j.job_id).1 refl, k) refl in
    let grown : list_for_job j.job_id (store.events ++ (e ∷ []))
        ≡ list_for_job j.job_id store.events ++ es =
      keep-append_one (λ x. x.job_id == j.job_id) store.events e ((==_iff j.job_id j.job_id).1 refl)
      ∙ ap (λ v. list_for_job j.job_id store.events ++ v) (sym p.event) in
    let logged : build_execution_records P (as_job (start_mutation j call) j)
          (list_for_job j.job_id (store.events ++ (e ∷ [])))
        ≡ ok (call.previous_executions ++ (r ∷ [])) =
      ap (build_execution_records P (as_job (start_mutation j call) j)) grown ∙ built in
    (
      record {
        rows = update j.job_id (as_job (start_mutation j call)) store.rows;
        events = store.events ++ (e ∷ []);
      },
      as_job (start_mutation j call) j,
      r,
      run,
      stored,
      logged,
      id,
      open_now,
    )
