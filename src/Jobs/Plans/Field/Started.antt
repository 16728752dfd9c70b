-- ===== src/Jobs/Plans/Field/Started.antt =====
-- The event of lifecycle.py's `plan_execution_start`, read by execution.py's
-- `build_execution_records`.
use pashupatastra_sih.Prelude.{
  ℤ, pos, suc, leb_ℤ, ltb_ℤ, eqb_ℤ_refl, String, true, false, none, some, List, [], ◌∷◌, ◌++◌, ◌≡◌,
  refl, ==_iff, ◌==◌, any, length, All, arith,
}
use pashupatastra_sih.Prelude.Dict.{get}
use pashupatastra_sih.Result.{ok}
use pashupatastra_sih.Contracts.{text}
use pashupatastra_sih.Python.{Platform}
use pashupatastra_sih.Jobs.State.{Job, JobEvent, proposal_run_id_of}
use pashupatastra_sih.Jobs.Guards.{is_empty}
use pashupatastra_sih.Jobs.Execution.Ids.{
  is_execution_id, proposal_id_for, proposal_id_for-filled, is_execution_id-filled,
}
use pashupatastra_sih.Jobs.Execution.Platform.{IsPlatform}
use pashupatastra_sih.Jobs.Execution.Evidence.{EvidenceItem, before_work, record_from}
use pashupatastra_sih.Jobs.Execution.Records.{
  ExecutionRecord, started, is_ended_complete, blocks_start, read_text, read_int,
  read_optional_text, read_evidence, read_deviation, read_timestamp, started_record, read_event,
  read_run, follow,
}
use pashupatastra_sih.Jobs.Execution.Reading.{
  IsItem, recorded-filled, is_filled, read-optional_text, read-timestamp, read-evidence,
}
use pashupatastra_sih.Jobs.Plans.Human.{decision_event}
use pashupatastra_sih.Jobs.Plans.Field.Start.{ExecutionStart, contradicts_start, start_event}

-- No earlier execution stands in the way of the start.
free_to_start :
    (job_id execution_id run : String) (order : List ExecutionRecord)
    → any (contradicts_start job_id execution_id run) order ≡ false
    → any (λ r. is_ended_complete r.status) order ≡ false
    → (any (λ r. r.execution_id == execution_id) order ≡ false)
      × (any (blocks_start run) order ≡ false)
unfolding any
free_to_start job_id execution_id run [] h c = (refl, refl)
free_to_start job_id execution_id run (r ∷ rs) h c = (
  ground (arith, free_to_start job_id execution_id run rs),
  ground (arith, free_to_start job_id execution_id run rs),
)

module _ {F : Type 0} (P : Platform) (laws : IsPlatform P) (j : Job F) (call : ExecutionStart)
    (began : ℤ) (evidence : List EvidenceItem) (minute planned_start planned_end : ℤ)
    (digest : String) where
  -- The record of the execution that the event starts.
  abbrev pub opened : ExecutionRecord
  opened = record {
    execution_id = call.execution_id;
    job_id = j.job_id;
    attempt_number = pos (suc (length call.previous_executions));
    optimization_run_id = call.expected_proposal_run_id;
    proposal_id = proposal_id_for call.expected_proposal_run_id j.job_id;
    track_id = j.track_id;
    section_id = j.block_candidate.section_id;
    planned_start_minute = planned_start;
    planned_end_minute = planned_end;
    committed_block_digest = digest;
    status = started;
    started_by = call.actor;
    started_recorded_at = call.at_time;
    actual_start_at = P.to_iso began;
    actual_start_minute = minute;
    before_work_evidence = record_from P 0 before_work evidence;
    ended_by = none;
    ended_recorded_at = none;
    actual_end_at = none;
    actual_end_minute = none;
    after_work_evidence = [];
    not_completed_reason = none;
    failure_evidence = [];
    started_before_planned_start = ltb_ℤ minute planned_start;
    ended_after_planned_end = none;
  }

  abbrev event : JobEvent
  event = start_event P j.job_id j call began evidence minute planned_start digest

  pub read-started :
      any
          (contradicts_start j.job_id call.execution_id call.expected_proposal_run_id)
          call.previous_executions
        ≡ false
      → any (λ r. is_ended_complete r.status) call.previous_executions ≡ false
      → j.schedule_end_minute ≡ some planned_end
      → leb_ℤ planned_end planned_start ≡ false
      → (digest == "") ≡ false
      → (j.track_id == "") ≡ false
      → is_filled j.block_candidate.section_id ≡ true
      → All (IsItem P) evidence
      → is_empty evidence ≡ false
      → started_record P j.job_id event call.execution_id call.expected_proposal_run_id
          call.previous_executions
        ≡ ok opened
  unfolding started_record start_event decision_event get read_int read_text read_deviation
      read_timestamp proposal_id_for record_from read_evidence read_optional_text
  read-started h c e w d t s i n =
      let free =
        free_to_start j.job_id call.execution_id call.expected_proposal_run_id
          call.previous_executions h c in
      rw
        (
          free.0,
          free.1,
          eqb_ℤ_refl (pos (suc (length call.previous_executions))),
          e,
          w,
          d,
          read-timestamp P laws "actual_start_at" began event refl,
          read-evidence P laws "before_work_evidence" before_work evidence event i refl,
          recorded-filled P laws 0 before_work evidence n,
          proposal_id_for-filled call.expected_proposal_run_id j.job_id,
          t,
          read-optional_text "section_id" j.block_candidate.section_id event refl s,
        )
        refl

  read-run :
      (call.expected_proposal_run_id == "") ≡ false
      → proposal_run_id_of j ≡ text call.expected_proposal_run_id
      → read_run event ≡ ok call.expected_proposal_run_id
  unfolding read_run read_text start_event decision_event get
  read-run f q = let run = call.expected_proposal_run_id in rw (q, f, (==_iff run run).1 refl) refl

  -- What `build_execution_records` makes of the event.
  pub read-start :
      is_execution_id call.execution_id ≡ true
      → (call.expected_proposal_run_id == "") ≡ false
      → proposal_run_id_of j ≡ text call.expected_proposal_run_id
      → started_record P j.job_id event call.execution_id call.expected_proposal_run_id
          call.previous_executions
        ≡ ok opened
      → read_event P j.job_id event call.previous_executions
        ≡ ok (call.previous_executions ++ (opened ∷ []))
  unfolding read_event follow read_text start_event decision_event get
  read-start x f q r =
      let run = call.expected_proposal_run_id in
      rw
        (
          (==_iff j.job_id j.job_id).1 refl,
          is_execution_id-filled call.execution_id x,
          x,
          read-run f q,
          proposal_id_for-filled run j.job_id,
          (==_iff (proposal_id_for run j.job_id) (proposal_id_for run j.job_id)).1 refl,
          r,
        )
        refl
