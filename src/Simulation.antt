-- ===== src/Simulation.antt =====
-- backend/app/simulation: disruptions.py, which applies a disruption to an optimization request, and
-- simulator.py, which optimizes the result. `_copy_request` copies through `to_dict` and
-- `from_dict`; values here are not shared, so the copy is the request.
pub mod Request
pub mod Recovery
use pashupatastra_sih.Prelude.{
  ltb_ℤ, String, Bool, true, false, not, ◌&&◌, ◌||◌, Option, none, some, List, [], ◌∷◌, ◌++◌, keep,
  any, ◌==◌, if◌then◌else◌,
}
use pashupatastra_sih.Result.{Result, ok, err, ◌>>=◌, ◌>>◌, raise_if, value_error}
use pashupatastra_sih.Contracts.{
  BlockCandidate, planned, PossessionWindow, OptimizationRequest, OptimizationResult,
  DisruptionEvent, DisruptionType, track_unavailable, emergency_work, possession_curtailment,
  asset_breakdown, unsupported,
}
use pashupatastra_sih.Python.{Builtins, SetOrder}
use pashupatastra_sih.Optimizer.Cp.{CpSolver}
use pashupatastra_sih.Optimizer.Solve.{solve}

-- The request without the blocks that the test finds.
unfoldable pub without :
    {F : Type 0} → (BlockCandidate F → Bool) → OptimizationRequest F → OptimizationRequest F
without hit r = record r {
  candidates = keep (λ b. not (hit b)) r.candidates;
  existing_committed_blocks = keep (λ b. not (hit b)) r.existing_committed_blocks;
}

-- The failed asset's blocks are removed, if the event names one.
abbrev pub without_asset :
    {F : Type 0} → Option String → OptimizationRequest F → OptimizationRequest F
without_asset none r = r
without_asset (some asset) r = if asset == "" then r else without (λ b. b.asset_id == asset) r

-- `apply_asset_breakdown`
unfoldable pub apply_asset_breakdown :
    {F : Type 0} → OptimizationRequest F → DisruptionEvent F → OptimizationRequest F
apply_asset_breakdown r e = without_asset e.affected_asset_id r

-- The unavailable track's blocks are removed, if the event names one.
abbrev pub without_track :
    {F : Type 0} → Option String → OptimizationRequest F → OptimizationRequest F
without_track none r = r
without_track (some track) r = if track == "" then r else without (λ b. b.track_id == track) r

-- `apply_track_unavailable`
unfoldable pub apply_track_unavailable :
    {F : Type 0} → OptimizationRequest F → DisruptionEvent F → OptimizationRequest F
apply_track_unavailable r e = without_track e.track_id r

-- The emergency candidate is appended, unless its id is taken.
abbrev pub with_candidate :
    {F : Type 0} → Option (BlockCandidate F) → OptimizationRequest F → OptimizationRequest F
with_candidate none r = r
with_candidate (some c) r =
    if any (λ b. b.block_id == c.block_id) r.candidates
    then r
    else record r { candidates = r.candidates ++ ((record c { status = planned }) ∷ []) }

-- `apply_emergency_work`
unfoldable pub apply_emergency_work :
    {F : Type 0} → OptimizationRequest F → DisruptionEvent F → OptimizationRequest F
apply_emergency_work r e = with_candidate e.new_candidate r

-- The event names this track, or none at all.
abbrev pub on_track : {F : Type 0} → DisruptionEvent F → String → Bool
on_track e t = elim e.track_id [ none ↦ true | some track ↦ t == track ]

abbrev pub same_track : {F : Type 0} → DisruptionEvent F → PossessionWindow → Bool
same_track e w = on_track e w.track_id

abbrev pub overlaps : {F : Type 0} → DisruptionEvent F → PossessionWindow → Bool
overlaps e w = ltb_ℤ w.start_minute e.end_minute && ltb_ℤ e.start_minute w.end_minute

abbrev pub is_nonempty {ℓ} : {A : Type ℓ} → List A → Bool
is_nonempty [] = false
is_nonempty (x ∷ xs) = true

-- `apply_possession_curtailment`
unfoldable pub apply_possession_curtailment :
    {F : Type 0} → OptimizationRequest F → DisruptionEvent F → Result (OptimizationRequest F)
apply_possession_curtailment r e = do
  let remaining = keep (λ w. not (same_track e w && overlaps e w)) r.possession_windows
  raise_if (is_nonempty r.possession_windows && not (is_nonempty remaining)) value_error
  ok (record r { possession_windows = remaining })

-- The branches of `apply_disruption`.
unfoldable pub apply_kind :
    {F : Type 0}
    → DisruptionType
    → OptimizationRequest F
    → DisruptionEvent F
    → Result (OptimizationRequest F)
apply_kind asset_breakdown r e = ok (apply_asset_breakdown r e)
apply_kind track_unavailable r e = ok (apply_track_unavailable r e)
apply_kind emergency_work r e = ok (apply_emergency_work r e)
apply_kind possession_curtailment r e = apply_possession_curtailment r e
apply_kind (unsupported kind) r e = err value_error

-- `apply_disruption`
abbrev pub apply_disruption :
    {F : Type 0} → OptimizationRequest F → DisruptionEvent F → Result (OptimizationRequest F)
apply_disruption r e = apply_kind e.disruption_type r e

pub record RecoverySimulation (F : Type 0) : Type 0 where
  pub event : DisruptionEvent F
  pub updated_request : OptimizationRequest F
  pub recovery_result : OptimizationResult F

-- `simulate_disruption`
unfoldable pub simulate_disruption :
    {F : Type 0}
    → Builtins F
    → SetOrder
    → CpSolver
    → OptimizationRequest F
    → DisruptionEvent F
    → Result (RecoverySimulation F)
simulate_disruption py order cp r e = do
  updated ← apply_disruption r e
  result ← solve py order updated cp
  ok (record { event = e; updated_request = updated; recovery_result = result })
