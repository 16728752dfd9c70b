-- ===== src/Examples/Fieldwork.antt =====
-- Field work on one job: its evidence and its start.
use pashupatastra_sih.Prelude.{
  ℤ, pos, ◌+ℤ◌, ◌-ℤ◌, ◌≤ℤ◌, ◌<ℤ◌, scale, floor_mod, floor_div, true, false, none, some, [], ◌∷◌,
  any, keep, ◌≡◌, refl, All,
}
use pashupatastra_sih.Prelude.Blank.{strip, lstrip, rstrip, is_blank, is_space}
use pashupatastra_sih.Prelude.Dict.{get}
use pashupatastra_sih.Result.{ok}
use pashupatastra_sih.Contracts.{missing, string}
use pashupatastra_sih.Jobs.State.{Actor, worker, Job, JobEvent, value_eq}
use pashupatastra_sih.Jobs.Guards.{committed_state_problems, assert_committed_state_consistent}
use pashupatastra_sih.Data.HorizonAnchor.{Aware, parse_horizon_start, horizon_relative_minutes}
use pashupatastra_sih.Jobs.Store.{Store, row, list_for_job, mutate_jobs}
use pashupatastra_sih.Jobs.Execution.Ids.{matches_id, hex_tail}
use pashupatastra_sih.Jobs.Execution.Time.{parse_observed_at, observed_minute, minute_after}
use pashupatastra_sih.Jobs.Execution.Minutes.{observed_minute-floor, observed_minute-ceil}
use pashupatastra_sih.Jobs.Execution.Evidence.{
  EvidenceItem, photo, EvidenceFields, evidence_item, normal_reference, normal_captured_at,
  normal_note, kind_from, optional_coordinate, RecordedEvidence, before_work, to_dict, from_dict,
  validate_evidence_set, check_captured, captured_moment, has_repeat,
}
use pashupatastra_sih.Jobs.Execution.Normal.{from_dict-to_dict}
use pashupatastra_sih.Jobs.Execution.Sets.{ValidSet, validate_evidence_set-ValidSet}
use pashupatastra_sih.Jobs.Execution.Reading.{IsItem}
use pashupatastra_sih.Jobs.Plans.Blocks.{require_identified_human}
use pashupatastra_sih.Jobs.Plans.Field.{committed_block_digest, block_identity_digest}
use pashupatastra_sih.Jobs.Plans.Field.Start.{
  ExecutionStart, observe_start, start_mutation, start_event, plan_execution_start,
}
use pashupatastra_sih.Jobs.Execution.Records.{
  ExecutionRecord, started, build_execution_records, read_events,
}
use pashupatastra_sih.Jobs.Plans.Field.Begun.{start-begins}
use pashupatastra_sih.Jobs.Events.{make_event, is_event_time, follows}
use pashupatastra_sih.Jobs.Plans.Human.{decision_event}
use pashupatastra_sih.Examples.Decisions.{decided_at}
use pashupatastra_sih.Examples.Platforms.{platform, laws, marks, tally, read_moment, write_moment}
use pashupatastra_sih.Examples.Stores.{notified_job, store_of}

abbrev anchor : Aware
anchor = record { micros = pos 0; offset = pos 0 }

horizon-parsed : parse_horizon_start platform "p" ≡ ok anchor
unfolding parse_horizon_start read_moment tally
horizon-parsed = refl

on-minute : floor_mod (pos 0 +ℤ pos 0) 60000000 ≡ 0
unfolding floor_mod ◌+ℤ◌
on-minute = refl

observed_minute-floor_example :
    (m : ℤ) × (observed_minute platform (pos 90000000) "p" false ≡ ok m)
    × (pos 0 +ℤ scale 60000000 m ≤ℤ pos 90000000)
    × (pos 90000000 <ℤ pos 0 +ℤ scale 60000000 (m +ℤ pos 1))
observed_minute-floor_example =
    observed_minute-floor platform "p" (pos 90000000) anchor horizon-parsed on-minute

observed_minute-ceil_example :
    (m : ℤ) × (observed_minute platform (pos 90000000) "p" true ≡ ok m)
    × (pos 90000000 ≤ℤ pos 0 +ℤ scale 60000000 m)
    × (pos 0 +ℤ scale 60000000 m <ℤ pos 90000000 +ℤ pos 60000000)
observed_minute-ceil_example =
    observed_minute-ceil platform "p" (pos 90000000) anchor horizon-parsed on-minute

abbrev pub photo_item : EvidenceItem
photo_item = record {
  evidence_reference = "img1";
  evidence_kind = photo;
  captured_at = "p";
  latitude = none;
  longitude = none;
  note = none;
}

abbrev photo_fields : EvidenceFields
photo_fields = record {
  evidence_reference = string " img1 ";
  evidence_kind = string "PHOTO";
  captured_at = string "p";
  latitude = missing;
  longitude = missing;
  note = missing;
}

photo-made : evidence_item platform photo_fields ≡ ok photo_item
unfolding evidence_item normal_reference normal_captured_at normal_note kind_from
    optional_coordinate get parse_observed_at strip lstrip rstrip is_blank is_space read_moment
    write_moment marks tally
photo-made = refl

abbrev photo_record : RecordedEvidence
photo_record = record {
  evidence_id = "EVD-00000000000000000000000000000000";
  phase = before_work;
  item = photo_item;
}

from_dict-to_dict_example : from_dict platform (to_dict photo_record) ≡ ok photo_record
unfolding matches_id hex_tail
from_dict-to_dict_example =
    from_dict-to_dict platform laws photo_record photo_fields photo-made refl

photo-valid :
    validate_evidence_set platform (photo_item ∷ []) (pos 1) 1 (some (pos 0)) none []
    ≡ ok (photo_item ∷ [])
unfolding validate_evidence_set has_repeat any check_captured captured_moment read_moment tally ◌+ℤ◌
photo-valid = refl

validate_evidence_set-ValidSet_example :
    ((photo_item ∷ []) ≡ (photo_item ∷ []))
    × ValidSet platform (photo_item ∷ []) (pos 1) 1 (some (pos 0)) none []
validate_evidence_set-ValidSet_example =
    validate_evidence_set-ValidSet platform (photo_item ∷ []) (pos 1) 1 (some (pos 0)) none []
      photo-valid

abbrev pub crew : Actor
crew = record { actor_id = "W1"; role = worker }

abbrev pub start_call : ExecutionStart
start_call = record {
  actor = crew;
  at_time = decided_at;
  execution_id = "EXE-00000000000000000000000000000000";
  expected_proposal_run_id = "R1";
  actual_start_at = "p";
  before_work_evidence = photo_item ∷ [];
  corridor_id = "C1";
  previous_executions = [];
  horizon_start = "p";
}

abbrev pub first_event : JobEvent
first_event =
    start_event platform "J1" notified_job start_call (pos 0) (photo_item ∷ []) (pos 0) (pos 30) "d"

start-planned :
    plan_execution_start platform "J1" start_call (("J1", notified_job) ∷ [])
    ≡ ok (start_mutation notified_job start_call ∷ [], first_event ∷ [])
unfolding plan_execution_start get assert_committed_state_consistent committed_state_problems keep
    require_identified_human is_blank is_space value_eq matches_id hex_tail any parse_observed_at
    read_moment tally strip lstrip rstrip observe_start validate_evidence_set has_repeat
    check_captured captured_moment ◌+ℤ◌ observed_minute parse_horizon_start minute_after
    horizon_relative_minutes floor_mod floor_div scale committed_block_digest block_identity_digest
    ◌-ℤ◌ make_event is_event_time follows start_event decision_event
start-planned = refl

pub photo-items : All (IsItem platform) (photo_item ∷ [])
photo-items = ((photo_fields, photo-made), tt)

no-history : build_execution_records platform notified_job [] ≡ ok []
unfolding build_execution_records read_events keep
no-history = refl

start-begins_example :
    (after : Store ℤ) × (started_job : Job ℤ) × (r : ExecutionRecord) × (mutate_jobs
        ("J1" ∷ [])
        (plan_execution_start platform "J1" start_call)
        true
        (store_of notified_job)
      ≡ ok after)
    × (row "J1" after.rows ≡ some started_job)
    × (build_execution_records platform started_job (list_for_job "J1" after.events) ≡ ok (r ∷ []))
    × (r.execution_id ≡ start_call.execution_id)
    × (r.status ≡ started)
unfolding any row list_for_job keep
start-begins_example =
    start-begins platform laws notified_job start_call (store_of notified_job) refl no-history refl
      refl refl photo-items start-planned
