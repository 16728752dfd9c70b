-- ===== src/Examples/Requests.antt =====
-- A corridor of two tracks and four pieces of work, its possession, and a timetable of the work.
use pashupatastra_sih.Prelude.{
  ◌-ℤ◌, eqb_ℤ, max_ℤ, min_ℤ, keep, any, find, flat_map, ◌==◌, ==_iff, ℕ, zero, suc, ℤ, pos, ltb_ℤ,
  ◌+ℤ◌, ◌≡◌, refl, ◌≢◌, String, true, false, Option, none, some, List, [], ◌∷◌,
}
use pashupatastra_sih.Result.{Result, ok, err, value_error, type_error, collect}
use pashupatastra_sih.Contracts.{
  BlockCandidate, PossessionWindow, OptimizationRequest, ScheduledBlock, OptimizationResult,
  optimal, scheduled, no_possession_covers, planned, committed, num, text, Value,
}
use pashupatastra_sih.Python.{Builtins, SetOrder}
use pashupatastra_sih.Optimizer.Cp.{presence, start, end_of, buffered_end, selection, Assignment}
use pashupatastra_sih.Optimizer.Solve.{solve}
use pashupatastra_sih.Optimizer.Solver.{
  entries_from, possession_window_covers_block, clamp_window, does_not_fit, by_id, committed_by_id,
  metadata_minute, committed_placement, variable_constraints, pin_constraints,
}
use pashupatastra_sih.Optimizer.Groups.{add_to, group_from}
use pashupatastra_sih.Optimizer.Model.{
  indexed_from, selection_constraints, eligible_constraints, window_constraints,
  possession_constraints, buffer_constraints, buffered_intervals, resource_constraints, by_resource,
  dependency_constraint, dependency_constraints, mutex_constraints, by_mutex_group, objective_terms,
  build_model,
}
use pashupatastra_sih.Optimizer.Solve.{
  scheduled_block, present_entries, scheduled_ids, competitor_reason, resource_reason, mutex_reason,
  rejection_reason, reasons_from, total, unsolved_result, left_out, solved_result, result_of,
}
use pashupatastra_sih.Prelude.Dict.{get, put, pop}
use pashupatastra_sih.Optimizer.Unique.{UniqueIds}
use pashupatastra_sih.Examples.Checker.{checking}

-- Scores as whole numbers.
abbrev int_value : Value → Result ℤ
int_value (num n) = ok n
int_value (text s) = err value_error
int_value _ = err type_error

abbrev pub python : Builtins ℤ
python = record {
  int_of = int_value;
  add = λ a b. a +ℤ b;
  lt = ltb_ℤ;
  zero = pos 0;
  round3 = λ x. x;
  round_scaled = λ x. x;
  int_of_num = λ n. refl;
}

abbrev pub in_order : SetOrder
in_order = record { walk = λ xs. xs; walk-In = λ x xs i. i; In-walk = λ x xs i. i }

abbrev pub work : String → String → ℤ → List String → Option String → BlockCandidate ℤ
work block_id track_id duration dependencies group = record {
  block_id = block_id;
  asset_id = "ASSET";
  track_id = track_id;
  work_type = "tamping";
  duration_minutes = duration;
  section_id = none;
  earliest_start_minute = pos 0;
  latest_end_minute = pos 480;
  priority_score = pos 5;
  risk_score = pos 3;
  dependencies = dependencies;
  mutual_exclusion_group = group;
  is_committed = false;
  status = planned;
  metadata = [];
}

abbrev pub first_work : BlockCandidate ℤ
first_work = work "B1" "T1" (pos 60) [] (some "CREW")

abbrev pub second_work : BlockCandidate ℤ
second_work = work "B2" "T1" (pos 30) ("B1" ∷ []) (some "CREW")

-- No possession is declared on its track.
abbrev pub open_line_work : BlockCandidate ℤ
open_line_work = work "B3" "T2" (pos 20) [] none

abbrev pub promised_work : BlockCandidate ℤ
promised_work = work "B4" "T1" (pos 45) [] none

abbrev pub promise : BlockCandidate ℤ
promise = record promised_work {
  is_committed = true;
  status = committed;
  metadata =
      ("committed_start_minute", num (pos 200)) ∷ ("committed_end_minute", num (pos 245)) ∷ [];
}

abbrev pub night : PossessionWindow
night = record {
  window_id = "W1";
  track_id = "T1";
  start_minute = pos 0;
  end_minute = pos 300;
  section_id = none;
}

abbrev pub request : OptimizationRequest ℤ
request = record {
  corridor_id = "C1";
  horizon_start = "2026-01-01T00:00:00";
  horizon_minutes = pos 480;
  tracks = "T1" ∷ "T2" ∷ [];
  candidates = first_work ∷ second_work ∷ open_line_work ∷ promised_work ∷ [];
  possession_windows = night ∷ [];
  existing_committed_blocks = promise ∷ [];
  min_headway_minutes = pos 10;
}

-- Start minutes and durations of the four.
abbrev start_at : ℕ → ℕ
start_at zero = 0
start_at (suc zero) = 70
start_at (suc (suc (suc zero))) = 200
start_at _ = 0

abbrev lasting : ℕ → ℕ
lasting zero = 60
lasting (suc zero) = 30
lasting (suc (suc (suc zero))) = 45
lasting _ = 20

abbrev taken : ℕ → ℤ
taken (suc (suc zero)) = pos 0
taken _ = pos 1

abbrev pub timetable : Assignment
timetable (presence n) = taken n
timetable (start n) = pos (start_at n)
timetable (end_of n) = pos (start_at n) +ℤ pos (lasting n)
timetable (buffered_end n) = pos (start_at n) +ℤ (pos (lasting n) +ℤ pos 10)
timetable (selection n w) = taken n

abbrev pub solved : Result (OptimizationResult ℤ)
solved = solve python in_order request (checking timetable)

abbrev pub placed : BlockCandidate ℤ → ℤ → ℤ → ScheduledBlock ℤ
placed b s e = record {
  block_id = b.block_id;
  track_id = b.track_id;
  start_minute = s;
  end_minute = e;
  work_type = b.work_type;
  section_id = b.section_id;
  priority_score = b.priority_score;
  risk_score = b.risk_score;
  is_committed = false;
  status = scheduled;
}

abbrev pub result : OptimizationResult ℤ
result = record {
  corridor_id = "C1";
  status = optimal;
  scheduled_blocks =
      placed first_work (pos 0) (pos 60)
      ∷ placed second_work (pos 70) (pos 100)
      ∷ record (placed promised_work (pos 200) (pos 245)) {
        is_committed = true;
        status = committed;
      }
      ∷ [];
  unscheduled_blocks = open_line_work ∷ [];
  total_priority_scheduled = pos 15;
  total_risk_mitigated = pos 9;
  infeasibility_reasons = [];
  rejection_reasons = ("B3", no_possession_covers "T2") ∷ [];
}

-- The timetable satisfies the model, and `solve` makes this result of it.
pub solved-ok : solve python in_order request (checking timetable) ≡ ok result
unfolding entries_from possession_window_covers_block clamp_window does_not_fit by_id
    committed_by_id metadata_minute committed_placement variable_constraints pin_constraints add_to
    group_from indexed_from selection_constraints eligible_constraints window_constraints
    possession_constraints buffer_constraints buffered_intervals resource_constraints by_resource
    dependency_constraint dependency_constraints mutex_constraints by_mutex_group objective_terms
    build_model scheduled_block present_entries scheduled_ids competitor_reason resource_reason
    mutex_reason rejection_reason reasons_from total unsolved_result left_out solved_result
    result_of solve ◌+ℤ◌ ◌-ℤ◌ eqb_ℤ max_ℤ min_ℤ keep any find flat_map get put pop collect
solved-ok = refl

pub ids_differ : (s t : String) → (s == t) ≡ false → s ≢ t
ids_differ s t h q = cc ((==_iff s t).1 q)

pub request-UniqueIds : UniqueIds request.candidates
request-UniqueIds = (
  (ids_differ "B2" "B1" refl, (ids_differ "B3" "B1" refl, (ids_differ "B4" "B1" refl, tt))),
  (
    (ids_differ "B3" "B2" refl, (ids_differ "B4" "B2" refl, tt)),
    ((ids_differ "B4" "B3" refl, tt), (tt, tt)),
  ),
)
