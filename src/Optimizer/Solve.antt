-- ===== src/Optimizer/Solve.antt =====
-- backend/app/optimizer/solver.py, `solve`: calling the solver and building the result, and
-- `uncovered_possession_tracks`. The wall time is not modelled.
use pashupatastra_sih.Prelude.{
  pos, eqb_ℤ, String, Bool, true, false, not, none, some, is_some, List, [], ◌∷◌, map, ◌==◌, ◌&&◌,
  ◌||◌, if◌then◌else◌, keep, find, option_eq,
}
use pashupatastra_sih.Prelude.Dict.{Dict, put}
use pashupatastra_sih.Result.{Result, ok, ◌>>=◌}
use pashupatastra_sih.Contracts.{
  BlockCandidate, OptimizationRequest, OptimizationResult, ScheduledBlock, SolverStatus, optimal,
  feasible, infeasible, no_solution, scheduled, committed, Reason, no_feasible_solution,
  duration_does_not_fit, no_possession_covers, dependency_not_scheduled, mutual_exclusion_conflict,
  lower_objective_than, capacity_trade_off,
}
use pashupatastra_sih.Python.{Builtins, SetOrder}
use pashupatastra_sih.Optimizer.Cp.{
  presence, start, end_of, Assignment, CpStatus, cp_optimal, cp_feasible, cp_infeasible, cp_unknown,
  cp_model_invalid, CpSolver, has_solution, CpOutcome,
}
use pashupatastra_sih.Optimizer.Solver.{
  Entry, entries, resource_key, resource_key_eq, objective_score, ids, member, window_infeasible,
  possession_control_active, uncovered, possession_uncovered, by_id, resolve, committed_by_id,
}
use pashupatastra_sih.Optimizer.Groups.{group_from}
use pashupatastra_sih.Optimizer.Model.{build_model}

-- `uncovered_possession_tracks`
pub uncovered_possession_tracks : {F : Type 0} → OptimizationRequest F → List (String × List String)
uncovered_possession_tracks r =
    if not (possession_control_active r)
    then []
    else map (λ g. (g.0, ids g.1))
        (group_from ◌==◌ (λ b. some b.track_id) [] (keep (uncovered r) r.candidates))

-- `status_map.get(solve_status, NO_SOLUTION)`
abbrev pub status_of : CpStatus → SolverStatus
status_of cp_optimal = optimal
status_of cp_feasible = feasible
status_of cp_infeasible = infeasible
status_of cp_unknown = no_solution
status_of cp_model_invalid = no_solution

-- `solver.Value(presence[block_id])`
abbrev pub is_present : {F : Type 0} → Assignment → OptimizationRequest F → Entry F → Bool
is_present v r e = not (eqb_ℤ (v (presence (resolve (entries r.candidates) e).0)) (pos 0))

-- Lines 625-647.
unfoldable pub scheduled_block :
    {F : Type 0} → Assignment → OptimizationRequest F → Entry F → ScheduledBlock F
scheduled_block v r e =
    let b = e.1 in
    let p = (resolve (entries r.candidates) e).0 in
    let is_committed =
      b.is_committed || is_some (committed_by_id b.block_id r.existing_committed_blocks) in
    record {
      block_id = b.block_id;
      track_id = b.track_id;
      start_minute = v (start p);
      end_minute = v (end_of p);
      work_type = b.work_type;
      section_id = b.section_id;
      priority_score = b.priority_score;
      risk_score = b.risk_score;
      is_committed = is_committed;
      status = if is_committed then committed else scheduled;
    }

unfoldable pub present_entries : {F : Type 0} → Assignment → OptimizationRequest F → List (Entry F)
present_entries v r = keep (is_present v r) (entries r.candidates)

-- The set `scheduled_ids`.
unfoldable pub scheduled_ids : {F : Type 0} → Assignment → OptimizationRequest F → List String
scheduled_ids v r = map (λ e. e.1.block_id) (present_entries v r)

-- A property of `by_id[other_id]`, false for an unknown id.
abbrev pub by_id_is :
    {F : Type 0} → OptimizationRequest F → (BlockCandidate F → Bool) → String → Bool
by_id_is r p k = elim (by_id k (entries r.candidates)) [ none ↦ false | some e ↦ p e.1 ]

-- Lines 738-758: the competing block is compared by its score.
unfoldable pub competitor_reason :
    {F : Type 0} → Builtins F → OptimizationRequest F → BlockCandidate F → String → Reason
competitor_reason py r b other_id =
    if by_id_is r (λ c. py.lt (objective_score py b) (objective_score py c)) other_id
    then lower_objective_than other_id
    else capacity_trade_off

module _ {F : Type 0} (py : Builtins F) (order : SetOrder) (r : OptimizationRequest F) where
  -- Lines 717-763.
  unfoldable pub resource_reason : List String → BlockCandidate F → Reason
  resource_reason done b =
      elim (find (by_id_is r (λ c. resource_key_eq (resource_key c) (resource_key b)))
        (order.walk done)) [ none ↦ capacity_trade_off | some k ↦ competitor_reason py r b k ]

  -- Lines 694-715: `if block.mutual_exclusion_group:` and the first scheduled block of that group.
  unfoldable pub mutex_reason : List String → BlockCandidate F → Reason
  mutex_reason done b = elim b.mutual_exclusion_group [
    | none ↦ resource_reason done b
    | some g ↦
        if g == ""
        then resource_reason done b
        else (elim (find (by_id_is r (λ c. option_eq c.mutual_exclusion_group (some g)))
            (order.walk done)) [
              | none ↦ resource_reason done b
              | some k ↦ mutual_exclusion_conflict k
            ])
  ]

  -- Lines 662-763.
  unfoldable pub rejection_reason : List String → BlockCandidate F → Reason
  rejection_reason done b =
      if member b.block_id (window_infeasible r)
      then duration_does_not_fit
      else (if member b.block_id (possession_uncovered r)
          then no_possession_covers b.track_id
          else (elim (find (λ d. by_id_is r (λ c. true) d && not (member d done)) b.dependencies) [
            | none ↦ mutex_reason done b
            | some d ↦ dependency_not_scheduled d
          ]))

  -- `rejection_reasons[block_id] = reason` for each block of a list.
  unfoldable pub reasons_from :
      (BlockCandidate F → Reason) → Dict Reason → List (BlockCandidate F) → Dict Reason
  reasons_from f d [] = d
  reasons_from f d (b ∷ bs) = reasons_from f (put b.block_id (f b) d) bs

  -- `sum(...)` of floats.
  unfoldable pub total : (BlockCandidate F → F) → F → List (Entry F) → F
  total score acc [] = acc
  total score acc (e ∷ es) = total score (py.add acc (score e.1)) es

  -- Lines 579-605: no solution.
  unfoldable pub unsolved_result : SolverStatus → OptimizationResult F
  unsolved_result status = record {
    corridor_id = r.corridor_id;
    status = status;
    scheduled_blocks = [];
    unscheduled_blocks = r.candidates;
    total_priority_scheduled = py.zero;
    total_risk_mitigated = py.zero;
    infeasibility_reasons = no_feasible_solution ∷ [];
    rejection_reasons = reasons_from (λ b. no_feasible_solution) [] r.candidates;
  }

  -- The blocks whose id is not in `scheduled_ids`.
  unfoldable pub left_out : Assignment → List (BlockCandidate F)
  left_out v = keep (λ b. not (member b.block_id (scheduled_ids v r))) r.candidates

  -- Lines 610-799: the result of a solution.
  unfoldable pub solved_result : SolverStatus → Assignment → OptimizationResult F
  solved_result status v =
      let in_ids = λ (e : Entry F). member e.1.block_id (scheduled_ids v r) in
      record {
        corridor_id = r.corridor_id;
        status = status;
        scheduled_blocks = map (scheduled_block v r) (present_entries v r);
        unscheduled_blocks = left_out v;
        total_priority_scheduled =
            py.round3 (total (λ b. b.priority_score) py.zero (keep in_ids (entries r.candidates)));
        total_risk_mitigated =
            py.round3 (total (λ b. b.risk_score) py.zero (keep in_ids (entries r.candidates)));
        infeasibility_reasons = [];
        rejection_reasons = reasons_from (rejection_reason (scheduled_ids v r)) [] (left_out v);
      }

  unfoldable pub result_of : CpOutcome → OptimizationResult F
  result_of out =
      if has_solution out.status
      then solved_result (status_of out.status) out.value
      else unsolved_result (status_of out.status)

  -- `solve`
  unfoldable pub solve : CpSolver → Result (OptimizationResult F)
  solve cp = do m ← build_model py r; ok (result_of (cp m))
