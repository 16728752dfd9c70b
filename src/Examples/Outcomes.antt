-- ===== src/Examples/Outcomes.antt =====
-- Field work on one job: its completion and its failure.
use pashupatastra_sih.Prelude.{
  ℤ, max_ℤ, pos, ◌+ℤ◌, ◌-ℤ◌, scale, floor_mod, floor_div, true, none, some, [], ◌∷◌, any, find,
  keep, ◌≡◌, refl, eqb_ℤ, All,
}
use pashupatastra_sih.Prelude.Blank.{strip, lstrip, rstrip, is_blank, is_space}
use pashupatastra_sih.Prelude.Dict.{get, put}
use pashupatastra_sih.Result.{ok, ◌>>=◌}
use pashupatastra_sih.Contracts.{missing, string, text, truthy}
use pashupatastra_sih.Jobs.State.{
  completed, execution_completed, execution_not_completed, proposal_run_id_of, Job, JobEvent,
  as_job, unchanged, value_eq,
}
use pashupatastra_sih.Jobs.Guards.{
  schedule_of, committed_state_problems, assert_committed_state_consistent,
}
use pashupatastra_sih.Data.HorizonAnchor.{parse_horizon_start, horizon_relative_minutes}
use pashupatastra_sih.Jobs.Execution.Ids.{matches_id, hex_tail, proposal_id_for}
use pashupatastra_sih.Jobs.Execution.Time.{parse_observed_at, observed_minute, minute_after}
use pashupatastra_sih.Jobs.Execution.Evidence.{
  EvidenceItem, EvidenceFields, evidence_item, normal_reference, normal_captured_at, normal_note,
  kind_from, optional_coordinate, to_dict, from_dict, validate_evidence_set, check_captured,
  captured_moment, has_repeat, record_evidence, record_from, valid_id, same_fields, phase_from,
}
use pashupatastra_sih.Jobs.Execution.Reading.{IsItem}
use pashupatastra_sih.Jobs.Plans.Blocks.{require_identified_human}
use pashupatastra_sih.Jobs.Plans.Human.{decision_event}
use pashupatastra_sih.Jobs.Plans.Field.{committed_block_digest, block_identity_digest}
use pashupatastra_sih.Jobs.Plans.Field.Start.{start_mutation, start_event}
use pashupatastra_sih.Jobs.Execution.Records.{
  ExecutionRecord, build_execution_records, read_events, read_event, read_run, read_text, follow,
  started_record, read_int, read_optional_text, read_timestamp, read_evidence, rebuild,
  read_deviation, put_record,
}
use pashupatastra_sih.Jobs.Plans.Field.Started.{opened}
use pashupatastra_sih.Examples.Platforms.{platform, laws, marks, tally, read_moment, write_moment}
use pashupatastra_sih.Examples.Stores.{notified_job}
use pashupatastra_sih.Jobs.Execution.Records.{ended_complete, ended_not_complete}
use pashupatastra_sih.Jobs.Execution.Coherent.{Coherent}
use pashupatastra_sih.Jobs.Execution.Coherent.Derived.{Agreed, build_execution_records-Coherent}
use pashupatastra_sih.Jobs.Plans.Field.Outcome.{
  ExecutionEnd, open_execution_checks, observe_end, observe_complete, complete_mutation,
  complete_event, plan_execution_complete, observe_not_completed, not_completed_mutation,
  not_completed_event, not_completed_plan, plan_execution_not_completed,
}
use pashupatastra_sih.Jobs.Plans.Field.Stored.{complete-recorded, not_completed-recorded}
use pashupatastra_sih.Jobs.Events.{make_event, is_event_time, follows}
use pashupatastra_sih.Jobs.Plans.Written.{Written, Unplaced, Between}
use pashupatastra_sih.Jobs.Store.{Store, row, list_for_job, mutate_jobs}
use pashupatastra_sih.Examples.Decisions.{decided_at}
use pashupatastra_sih.Examples.Fieldwork.{photo_item, crew, start_call, first_event}

abbrev running : Job ℤ
running = as_job (start_mutation notified_job start_call) notified_job

abbrev running_record : ExecutionRecord
running_record =
    opened platform laws notified_job start_call (pos 0) (photo_item ∷ []) (pos 0) (pos 30) (pos 90)
      "d"

running-history :
    build_execution_records platform running (first_event ∷ []) ≡ ok (running_record ∷ [])
unfolding build_execution_records read_events read_event read_run read_text follow started_record
    start_event start_mutation decision_event get put matches_id hex_tail any read_int
    read_optional_text read_timestamp read_evidence rebuild from_dict to_dict valid_id same_fields
    phase_from evidence_item normal_reference normal_captured_at normal_note kind_from
    optional_coordinate parse_observed_at strip lstrip rstrip is_blank is_space read_moment
    write_moment marks tally read_deviation record_evidence record_from keep value_eq as_job
    unchanged eqb_ℤ proposal_id_for
running-history = refl

build_execution_records-Coherent_example :
    Coherent "J1" (running_record ∷ [])
    × Agreed true (text "EXE-00000000000000000000000000000000") (running_record ∷ [])
unfolding start_mutation get put as_job
build_execution_records-Coherent_example =
    build_execution_records-Coherent platform running (first_event ∷ []) running-history

abbrev done_call : ExecutionEnd
done_call = record {
  actor = crew;
  at_time = decided_at;
  execution_id = "EXE-00000000000000000000000000000000";
  actual_end_at = "pxx";
  evidence = photo_item ∷ [];
  execution = running_record;
  corridor_id = "C1";
  horizon_start = "p";
}

-- After work, a new photograph.
abbrev after_item : EvidenceItem
after_item = record photo_item { evidence_reference = "img2" }

abbrev after_fields : EvidenceFields
after_fields = record {
  evidence_reference = string "img2";
  evidence_kind = string "PHOTO";
  captured_at = string "p";
  latitude = missing;
  longitude = missing;
  note = missing;
}

after-made : evidence_item platform after_fields ≡ ok after_item
unfolding evidence_item normal_reference normal_captured_at normal_note kind_from
    optional_coordinate get parse_observed_at strip lstrip rstrip is_blank is_space read_moment
    write_moment marks tally
after-made = refl

after-items : All (IsItem platform) (after_item ∷ [])
after-items = ((after_fields, after-made), tt)

abbrev completion_call : ExecutionEnd
completion_call = record done_call { evidence = after_item ∷ [] }

abbrev completion_event : JobEvent
completion_event =
    complete_event platform "J1" running completion_call (pos 2, pos 1) (after_item ∷ []) "d"

completion-planned :
    plan_execution_complete platform "J1" completion_call (("J1", running) ∷ [])
    ≡ ok (complete_mutation running completion_call ∷ [], completion_event ∷ [])
unfolding plan_execution_complete get put start_mutation as_job unchanged
    assert_committed_state_consistent committed_state_problems keep require_identified_human
    is_blank is_space value_eq any parse_observed_at read_moment write_moment marks tally strip
    lstrip rstrip open_execution_checks observe_complete observe_end eqb_ℤ proposal_id_for
    validate_evidence_set has_repeat check_captured captured_moment ◌+ℤ◌ ◌-ℤ◌ observed_minute
    parse_horizon_start minute_after horizon_relative_minutes floor_mod floor_div scale
    committed_block_digest block_identity_digest record_from truthy make_event is_event_time follows
    complete_event decision_event
completion-planned = refl

abbrev running_store : Store ℤ
running_store = record { rows = running ∷ []; events = first_event ∷ [] }

stored-history :
    build_execution_records platform running (list_for_job "J1" running_store.events)
    ≡ ok (running_record ∷ [])
unfolding list_for_job keep start_event decision_event
stored-history = running-history

stored-row : row "J1" running_store.rows ≡ some running
unfolding row start_mutation as_job unchanged
stored-row = refl

complete-recorded_example :
    (after : Store ℤ) × (j' : Job ℤ) × (e : JobEvent) × (r : ExecutionRecord) × (mutate_jobs
        ("J1" ∷ [])
        (plan_execution_complete platform "J1" completion_call)
        true
        running_store
      ≡ ok after)
    × Written "J1" running running_store execution_completed crew decided_at none
        (text "R1")
        after
        j'
        e
    × (j'.status ≡ completed)
    × (schedule_of j' ≡ schedule_of running)
    × (j'.block_candidate ≡ running.block_candidate)
    × (build_execution_records platform j' (list_for_job "J1" after.events)
        ≡ ok (put_record r (running_record ∷ [])))
    × (r.status ≡ ended_complete)
    × (r.execution_id ≡ running_record.execution_id)
    × (r.committed_block_digest ≡ running_record.committed_block_digest)
    × (r.before_work_evidence ≡ running_record.before_work_evidence)
unfolding find matches_id hex_tail as_job
complete-recorded_example =
    complete-recorded platform laws running completion_call running_store stored-row stored-history
      refl refl refl after-items completion-planned

abbrev failed_call : ExecutionEnd
failed_call = record done_call { evidence = [] }

abbrev failure_event : JobEvent
failure_event =
    not_completed_event platform "J1" running failed_call "late" (pos 90) (pos 480) (pos 2, pos 1)
      [] "d"

failure-planned :
    (plan_execution_not_completed platform "J1" failed_call "late" (pos 480) >>= λ plan.
    plan (("J1", running) ∷ []))
    ≡ ok (
      not_completed_mutation running failed_call "late" (pos 90) (pos 1) (pos 480) ∷ [],
      failure_event ∷ [],
    )
unfolding plan_execution_not_completed not_completed_plan get put start_mutation as_job unchanged
    assert_committed_state_consistent committed_state_problems keep require_identified_human
    is_blank is_space value_eq any parse_observed_at read_moment write_moment marks tally strip
    lstrip rstrip open_execution_checks observe_not_completed observe_end eqb_ℤ proposal_id_for
    validate_evidence_set has_repeat check_captured captured_moment ◌+ℤ◌ ◌-ℤ◌ observed_minute
    parse_horizon_start minute_after horizon_relative_minutes floor_mod floor_div scale
    committed_block_digest block_identity_digest record_from truthy make_event is_event_time follows
    not_completed_event decision_event
failure-planned = refl

not_completed-recorded_example :
    (after : Store ℤ) × (j' : Job ℤ) × (e : JobEvent) × (r : ExecutionRecord) × (released_end : ℤ)
    × (ended_minute : ℤ) × ((plan_execution_not_completed platform "J1" failed_call "late" (pos 480)
          >>= λ plan. mutate_jobs ("J1" ∷ []) plan true running_store)
        ≡ ok after)
    × Written "J1" running running_store execution_not_completed crew decided_at
        (some "late")
        (proposal_run_id_of running)
        after
        j'
        e
    × Unplaced "late" j'
    × (running.schedule_end_minute ≡ some released_end)
    × (r.actual_end_minute ≡ some ended_minute)
    × Between
        (max_ℤ running.block_candidate.earliest_start_minute (max_ℤ released_end ended_minute))
        (max_ℤ running.block_candidate.latest_end_minute (pos 480))
        j'
    × (build_execution_records platform j' (list_for_job "J1" after.events)
        ≡ ok (put_record r (running_record ∷ [])))
    × (r.status ≡ ended_not_complete)
    × (r.not_completed_reason ≡ some "late")
    × (r.execution_id ≡ running_record.execution_id)
unfolding find matches_id hex_tail as_job
not_completed-recorded_example =
    not_completed-recorded platform laws running failed_call "late" (pos 480) running_store
      stored-row stored-history refl refl refl tt failure-planned
