-- ===== src/Examples/Recoveries.antt =====
-- The disruptions of one corridor and the schedules that are recovered.
use pashupatastra_sih.Prelude.{
  ℕ, zero, suc, ℤ, pos, ◌+ℤ◌, ◌-ℤ◌, eqb_ℤ, max_ℤ, min_ℤ, keep, any, find, flat_map, ◌≤ℤ◌, ◌≡◌, ◌≢◌,
  refl, String, true, Option, none, some, ◌⊎◌, [], ◌∷◌, here, there, ◌++◌,
}
use pashupatastra_sih.Result.{ok, collect}
use pashupatastra_sih.Contracts.{
  BlockCandidate, OptimizationRequest, OptimizationResult, PossessionWindow, DisruptionEvent,
  DisruptionType, track_unavailable, possession_curtailment, emergency_work, committed,
}
use pashupatastra_sih.Optimizer.Solve.{solve}
use pashupatastra_sih.Optimizer.Solver.{
  entries_from, possession_window_covers_block, clamp_window, does_not_fit, by_id, committed_by_id,
  metadata_minute, committed_placement, variable_constraints, pin_constraints,
}
use pashupatastra_sih.Optimizer.Groups.{add_to, group_from}
use pashupatastra_sih.Optimizer.Model.{
  indexed_from, selection_constraints, eligible_constraints, window_constraints,
  possession_constraints, buffer_constraints, buffered_intervals, resource_constraints, by_resource,
  dependency_constraint, dependency_constraints, mutex_constraints, by_mutex_group, objective_terms,
  build_model,
}
use pashupatastra_sih.Optimizer.Solve.{
  scheduled_block, present_entries, scheduled_ids, competitor_reason, resource_reason, mutex_reason,
  rejection_reason, reasons_from, total, unsolved_result, left_out, solved_result, result_of,
}
use pashupatastra_sih.Prelude.Dict.{get, put, pop}
use pashupatastra_sih.Optimizer.Cp.{presence, start, end_of, buffered_end, selection, Assignment}
use pashupatastra_sih.Optimizer.Unique.{UniqueIds}
use pashupatastra_sih.Simulation.{
  without, apply_track_unavailable, apply_emergency_work, apply_possession_curtailment, apply_kind,
  apply_disruption, RecoverySimulation, simulate_disruption,
}
use pashupatastra_sih.Simulation.Request.{
  apply_disruption-UniqueIds, apply_disruption-keeps_protection,
}
use pashupatastra_sih.Simulation.Recovery.{recovery_avoids_track, recovery_avoids_curtailed}
use pashupatastra_sih.Examples.Checker.{checking, checking-IsSound}
use pashupatastra_sih.Examples.Requests.{
  python, in_order, work, placed, request, night, result, timetable, first_work, second_work,
  promised_work, solved-ok, request-UniqueIds,
}

abbrev disruption :
    DisruptionType → Option String → ℤ → ℤ → Option (BlockCandidate ℤ) → DisruptionEvent ℤ
disruption kind track s e candidate = record {
  disruption_id = "D1";
  disruption_type = kind;
  corridor_id = "C1";
  track_id = track;
  start_minute = s;
  end_minute = e;
  affected_asset_id = none;
  new_candidate = candidate;
}

abbrev urgent : DisruptionEvent ℤ
urgent = disruption emergency_work none (pos 0) (pos 10) (some (work "B5" "T1" (pos 15) [] none))

abbrev urgent_request : OptimizationRequest ℤ
urgent_request = record request {
  candidates = request.candidates ++ (work "B5" "T1" (pos 15) [] none ∷ []);
}

urgent-applied : apply_disruption request urgent ≡ ok urgent_request
unfolding apply_kind apply_emergency_work any
urgent-applied = refl

apply_disruption-UniqueIds_example : UniqueIds urgent_request.candidates
apply_disruption-UniqueIds_example =
    apply_disruption-UniqueIds request urgent urgent_request request-UniqueIds urgent-applied

-- The request with a second possession window, which is curtailed.
abbrev evening : PossessionWindow
evening = record night { window_id = "W2"; start_minute = pos 310; end_minute = pos 400 }

abbrev wide_request : OptimizationRequest ℤ
wide_request = record request { possession_windows = night ∷ evening ∷ [] }

abbrev curtailed : DisruptionEvent ℤ
curtailed = disruption possession_curtailment (some "T1") (pos 320) (pos 350) none

curtailed-applied : apply_disruption wide_request curtailed ≡ ok request
unfolding apply_kind apply_possession_curtailment keep
curtailed-applied = refl

apply_disruption-keeps_protection_example : request.possession_windows ≢ []
apply_disruption-keeps_protection_example =
    apply_disruption-keeps_protection wide_request curtailed request (λ q. cc) curtailed-applied

abbrev curtailed_recovery : RecoverySimulation ℤ
curtailed_recovery = record {
  event = curtailed;
  updated_request = request;
  recovery_result = result;
}

curtailed-simulated :
    simulate_disruption python in_order (checking timetable) wide_request curtailed
    ≡ ok curtailed_recovery
unfolding simulate_disruption
curtailed-simulated = rw (curtailed-applied, solved-ok) refl

recovery_avoids_curtailed_example : (pos 245 ≤ℤ pos 320) ⊎ (pos 350 ≤ℤ pos 200)
recovery_avoids_curtailed_example =
    recovery_avoids_curtailed python in_order (checking timetable) wide_request curtailed
      {sim = curtailed_recovery}
      {s = record (placed promised_work (pos 200) (pos 245)) {
        is_committed = true;
        status = committed;
      }}
      (checking-IsSound timetable) request-UniqueIds (λ q. cc) refl curtailed-simulated
      (there (there (here refl))) refl

-- The track T2 is lost, with the only work on it.
abbrev lost : DisruptionEvent ℤ
lost = disruption track_unavailable (some "T2") (pos 0) (pos 480) none

abbrev remaining : OptimizationRequest ℤ
remaining = record request { candidates = first_work ∷ second_work ∷ promised_work ∷ [] }

lost-applied : apply_disruption request lost ≡ ok remaining
unfolding apply_kind apply_track_unavailable without keep
lost-applied = refl

abbrev start_at : ℕ → ℕ
start_at zero = 0
start_at (suc zero) = 70
start_at _ = 200

abbrev lasting : ℕ → ℕ
lasting zero = 60
lasting (suc zero) = 30
lasting _ = 45

abbrev new_timetable : Assignment
new_timetable (presence n) = pos 1
new_timetable (start n) = pos (start_at n)
new_timetable (end_of n) = pos (start_at n) +ℤ pos (lasting n)
new_timetable (buffered_end n) = pos (start_at n) +ℤ (pos (lasting n) +ℤ pos 10)
new_timetable (selection n w) = pos 1

abbrev new_result : OptimizationResult ℤ
new_result = record result { unscheduled_blocks = []; rejection_reasons = [] }

remaining-solved : solve python in_order remaining (checking new_timetable) ≡ ok new_result
unfolding entries_from possession_window_covers_block clamp_window does_not_fit by_id
    committed_by_id metadata_minute committed_placement variable_constraints pin_constraints add_to
    group_from indexed_from selection_constraints eligible_constraints window_constraints
    possession_constraints buffer_constraints buffered_intervals resource_constraints by_resource
    dependency_constraint dependency_constraints mutex_constraints by_mutex_group objective_terms
    build_model scheduled_block present_entries scheduled_ids competitor_reason resource_reason
    mutex_reason rejection_reason reasons_from total unsolved_result left_out solved_result
    result_of solve ◌+ℤ◌ ◌-ℤ◌ eqb_ℤ max_ℤ min_ℤ keep any find flat_map get put pop collect
remaining-solved = refl

abbrev lost_recovery : RecoverySimulation ℤ
lost_recovery = record { event = lost; updated_request = remaining; recovery_result = new_result }

lost-simulated :
    simulate_disruption python in_order (checking new_timetable) request lost ≡ ok lost_recovery
unfolding simulate_disruption
lost-simulated = rw (lost-applied, remaining-solved) refl

recovery_avoids_track_example : first_work.track_id ≢ "T2"
recovery_avoids_track_example =
    recovery_avoids_track python in_order (checking new_timetable) request lost "T2"
      {sim = lost_recovery} {s = placed first_work (pos 0) (pos 60)}
      (checking-IsSound new_timetable) request-UniqueIds refl refl refl lost-simulated (here refl)
