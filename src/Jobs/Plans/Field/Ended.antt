-- ===== src/Jobs/Plans/Field/Ended.antt =====
-- The events of lifecycle.py's `plan_execution_complete` and `plan_execution_not_completed`, read by
-- execution.py's `build_execution_records`.
use pashupatastra_sih.Prelude.{
  ℤ, ltb_ℤ, String, true, false, some, List, ◌≡◌, refl, sym, subst, ==_iff, ◌==◌, find, All,
}
use pashupatastra_sih.Prelude.Dict.{get}
use pashupatastra_sih.Prelude.Blank.{is_blank}
use pashupatastra_sih.Result.{ok}
use pashupatastra_sih.Contracts.{text}
use pashupatastra_sih.Python.{Platform}
use pashupatastra_sih.Jobs.State.{Job, JobEvent, proposal_run_id_of}
use pashupatastra_sih.Jobs.Guards.{is_empty}
use pashupatastra_sih.Jobs.Execution.Ids.{
  is_execution_id, proposal_id_for, proposal_id_for-filled, is_execution_id-filled,
}
use pashupatastra_sih.Jobs.Execution.Platform.{IsPlatform}
use pashupatastra_sih.Jobs.Execution.Evidence.{
  EvidenceItem, after_work, work_not_completed, record_from,
}
use pashupatastra_sih.Jobs.Execution.Records.{
  ExecutionRecord, ended_complete, ended_not_complete, read_text, read_int, read_deviation,
  ended_record, outcome_record, read_run, read_event, follow, close_record, put_record,
}
use pashupatastra_sih.Jobs.Execution.Reading.{
  IsItem, recorded-filled, read-timestamp, read-evidence,
}
use pashupatastra_sih.Jobs.Plans.Human.{decision_event}
use pashupatastra_sih.Jobs.Plans.Field.Outcome.{ExecutionEnd, complete_event, not_completed_event}
use pashupatastra_sih.Jobs.Plans.Field.Closed.{IsCurrent, Observed, captured-iso}

-- The record with the facts of its end.
abbrev pub ended_at : Platform → ExecutionEnd → ℤ × ℤ → ExecutionRecord
ended_at P call seen = record call.execution {
  actual_end_at = some (P.to_iso seen.0);
  actual_end_minute = some seen.1;
  ended_by = some call.actor;
  ended_recorded_at = some call.at_time;
  ended_after_planned_end = some (ltb_ℤ call.execution.planned_end_minute seen.1);
}

module _ {F : Type 0} (P : Platform) (laws : IsPlatform P) (j : Job F) (call : ExecutionEnd)
    (seen : ℤ × ℤ) (evidence : List EvidenceItem) (digest : String) where
  abbrev pub completed_record : ExecutionRecord
  completed_record = record (ended_at P call seen) {
    after_work_evidence = record_from P 0 after_work evidence;
    status = ended_complete;
  }

  abbrev completion : JobEvent
  completion = complete_event P j.job_id j call seen evidence digest

  pub read-completed :
      (digest == "") ≡ false
      → digest ≡ call.execution.committed_block_digest
      → Observed P call seen
      → All (IsItem P) evidence
      → is_empty evidence ≡ false
      → ended_record P completion call.execution ≡ ok completed_record
  unfolding ended_record complete_event decision_event get read_int read_text read_deviation
      outcome_record
  read-completed d s o i n =
      rw
        (
          d,
          (==_iff digest call.execution.committed_block_digest).1 s,
          read-timestamp P laws "actual_end_at" seen.0 completion refl,
          captured-iso P laws seen.0,
          o.of_start,
          o.in_order,
          read-evidence P laws "after_work_evidence" after_work evidence completion i refl,
          recorded-filled P laws 0 after_work evidence n,
        )
        refl

  pub read-completion :
      (order : List ExecutionRecord)
      → find (λ r. r.execution_id == call.execution_id) order ≡ some call.execution
      → is_execution_id call.execution_id ≡ true
      → (call.execution.optimization_run_id == "") ≡ false
      → IsCurrent j call.execution_id call.execution
      → ended_record P completion call.execution ≡ ok completed_record
      → read_event P j.job_id completion order ≡ ok (put_record completed_record order)
  unfolding read_event read_run follow close_record read_text complete_event decision_event get
  read-completion order f x g c e =
      let run = call.execution.optimization_run_id in
      let proposal : (call.execution.proposal_id == proposal_id_for run j.job_id) ≡ true =
        (==_iff call.execution.proposal_id (proposal_id_for run j.job_id)).1 c.of_proposal in
      let filled : (call.execution.proposal_id == "") ≡ false =
        subst (λ p. (p == "") ≡ false) (sym c.of_proposal) (proposal_id_for-filled run j.job_id) in
      rw
        (
          (==_iff j.job_id j.job_id).1 refl,
          is_execution_id-filled call.execution_id x,
          x,
          g,
          (==_iff run run).1 refl,
          filled,
          proposal,
          f,
          c.open_now,
          (==_iff run run).1 refl,
          e,
        )
        refl

module _ {F : Type 0} (P : Platform) (laws : IsPlatform P) (j : Job F) (call : ExecutionEnd)
    (reason : String) (released_end horizon : ℤ) (seen : ℤ × ℤ) (evidence : List EvidenceItem)
    (digest : String) where
  abbrev pub failed_record : ExecutionRecord
  failed_record = record (ended_at P call seen) {
    not_completed_reason = some reason;
    failure_evidence = record_from P 0 work_not_completed evidence;
    status = ended_not_complete;
  }

  abbrev failure : JobEvent
  failure = not_completed_event P j.job_id j call reason released_end horizon seen evidence digest

  pub read-failed :
      (digest == "") ≡ false
      → digest ≡ call.execution.committed_block_digest
      → is_blank reason ≡ false
      → Observed P call seen
      → All (IsItem P) evidence
      → ended_record P failure call.execution ≡ ok failed_record
  unfolding ended_record not_completed_event decision_event get read_int read_text read_deviation
      outcome_record
  read-failed d s b o i =
      rw
        (
          d,
          (==_iff digest call.execution.committed_block_digest).1 s,
          read-timestamp P laws "actual_end_at" seen.0 failure refl,
          captured-iso P laws seen.0,
          o.of_start,
          o.in_order,
          b,
          read-evidence P laws "failure_evidence" work_not_completed evidence failure i refl,
        )
        refl

  run_read :
      (call.execution.optimization_run_id == "") ≡ false
      → text call.execution.optimization_run_id ≡ proposal_run_id_of j
      → read_run failure ≡ ok call.execution.optimization_run_id
  unfolding read_run read_text not_completed_event decision_event get
  run_read g q =
      let run = call.execution.optimization_run_id in rw (sym q, g, (==_iff run run).1 refl) refl

  pub read-failure :
      (order : List ExecutionRecord)
      → find (λ r. r.execution_id == call.execution_id) order ≡ some call.execution
      → is_execution_id call.execution_id ≡ true
      → (call.execution.optimization_run_id == "") ≡ false
      → IsCurrent j call.execution_id call.execution
      → ended_record P failure call.execution ≡ ok failed_record
      → read_event P j.job_id failure order ≡ ok (put_record failed_record order)
  unfolding read_event follow close_record read_text not_completed_event decision_event get
  read-failure order f x g c e =
      let run = call.execution.optimization_run_id in
      let proposal : (call.execution.proposal_id == proposal_id_for run j.job_id) ≡ true =
        (==_iff call.execution.proposal_id (proposal_id_for run j.job_id)).1 c.of_proposal in
      let filled : (call.execution.proposal_id == "") ≡ false =
        subst (λ p. (p == "") ≡ false) (sym c.of_proposal) (proposal_id_for-filled run j.job_id) in
      rw
        (
          (==_iff j.job_id j.job_id).1 refl,
          is_execution_id-filled call.execution_id x,
          x,
          run_read g c.of_run,
          filled,
          proposal,
          f,
          c.open_now,
          (==_iff run run).1 refl,
          e,
        )
        refl
