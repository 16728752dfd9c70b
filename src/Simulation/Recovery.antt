-- ===== src/Simulation/Recovery.antt =====
-- The schedule that backend/app/simulation/simulator.py recovers after a disruption.
use pashupatastra_sih.Prelude.{
  ℤ, ◌≤ℤ◌, ltb_ℤ, ◌≡◌, ◌≢◌, sym, ◌∙◌, subst, String, Bool, true, false, not, ◌&&◌, some, ◌⊎◌, inl,
  inr, [], keep-In, In, ◌==◌, ==_iff, arith, Bool-cases, if◌then◌else◌,
}
use pashupatastra_sih.Result.{ok, raise_if, >>=-eq-ok, >>-eq-ok, ok_injective, value_error}
use pashupatastra_sih.Contracts.{
  BlockCandidate, ScheduledBlock, PossessionWindow, OptimizationRequest, DisruptionEvent,
  track_unavailable, possession_curtailment,
}
use pashupatastra_sih.Python.{Builtins, SetOrder}
use pashupatastra_sih.Optimizer.Cp.{CpSolver, IsSound}
use pashupatastra_sih.Optimizer.Solver.{possession_window_covers_block}
use pashupatastra_sih.Optimizer.Solve.{solve}
use pashupatastra_sih.Optimizer.Unique.{UniqueIds}
use pashupatastra_sih.Optimizer.Schedule.{scheduled-InWindow}
use pashupatastra_sih.Optimizer.Possession.{scheduled_possession}
use pashupatastra_sih.Simulation.{
  without, without_track, apply_track_unavailable, on_track, same_track, overlaps,
  apply_possession_curtailment, apply_kind, apply_disruption, RecoverySimulation,
  simulate_disruption,
}
use pashupatastra_sih.Simulation.Request.{
  apply_disruption-UniqueIds, apply_disruption-keeps_protection,
}

-- A recovery is the solution of the disrupted request.
simulated :
    {F : Type 0} (py : Builtins F) (order : SetOrder) (cp : CpSolver) (r : OptimizationRequest F)
    (e : DisruptionEvent F) {sim : RecoverySimulation F}
    → simulate_disruption py order cp r e ≡ ok sim
    → (apply_disruption r e ≡ ok sim.updated_request)
      × (solve py order sim.updated_request cp ≡ ok sim.recovery_result)
unfolding simulate_disruption
simulated py order cp r e {sim} h =
    let (u, a, h1) = >>=-eq-ok (apply_disruption r e) _ h in
    let (res, b, h2) = >>=-eq-ok (solve py order u cp) _ h1 in
    let q = ok_injective h2 in
    (
      subst (λ x. apply_disruption r e ≡ ok x.updated_request) q a,
      subst (λ x. solve py order x.updated_request cp ≡ ok x.recovery_result) q b,
    )

without_track-away :
    {F : Type 0} (r : OptimizationRequest F) (track : String) (b : BlockCandidate F)
    → (track == "") ≡ false
    → In b (without_track (some track) r).candidates
    → b.track_id ≢ track
unfolding without
without_track-away r track b f i q =
    let (j, p) = keep-In (λ b. not (b.track_id == track)) r.candidates (rw f at i) in
    cc ((==_iff b.track_id track).1 q)

-- After a track is lost, the recovered schedule has no block on it.
pub recovery_avoids_track :
    {F : Type 0} (py : Builtins F) (order : SetOrder) (cp : CpSolver) (r : OptimizationRequest F)
    (e : DisruptionEvent F) (track : String) {sim : RecoverySimulation F} {s : ScheduledBlock F}
    → IsSound cp
    → UniqueIds r.candidates
    → e.disruption_type ≡ track_unavailable
    → e.track_id ≡ some track
    → (track == "") ≡ false
    → simulate_disruption py order cp r e ≡ ok sim
    → In s sim.recovery_result.scheduled_blocks
    → s.track_id ≢ track
unfolding apply_kind apply_track_unavailable
recovery_avoids_track py order cp r e track {sim} {s} sound u kind on f h i q =
    let (a, b) = simulated py order cp r e h in
    let (c, j, same, t, w) =
      scheduled-InWindow py order sim.updated_request cp sound
        (apply_disruption-UniqueIds r e sim.updated_request u a) b i in
    without_track-away r track c f
      (subst (λ (x : OptimizationRequest _). In c x.candidates)
        (sym (ok_injective (rw (kind, on) at a))) j)
      (sym t ∙ q)

-- A window that outlives a curtailment of its track is clear of the curtailed interval.
kept-clear :
    {F : Type 0} (r : OptimizationRequest F) (e : DisruptionEvent F) (r' : OptimizationRequest F)
    (w : PossessionWindow)
    → e.disruption_type ≡ possession_curtailment
    → apply_disruption r e ≡ ok r'
    → In w r'.possession_windows
    → same_track e w ≡ true
    → overlaps e w ≡ false
unfolding apply_kind apply_possession_curtailment
kept-clear r e r' w kind h i t =
    let (a, b) = >>-eq-ok (raise_if _ value_error) _ (rw (kind, apply_kind) at h) in
    let (j, p) =
      keep-In (λ x. not (same_track e x && overlaps e x)) r.possession_windows
        (subst (λ (x : OptimizationRequest _). In w x.possession_windows) (sym (ok_injective b))
          i) in
    unhit (same_track e w) (overlaps e w) t p
  where
    unhit : (x y : Bool) → x ≡ true → not (x && y) ≡ true → y ≡ false
    unhit x y p q = ground arith

covers-track :
    {F : Type 0} (w : PossessionWindow) (b : BlockCandidate F)
    → possession_window_covers_block w b ≡ true
    → w.track_id ≡ b.track_id
unfolding possession_window_covers_block
covers-track w b h = (==_iff w.track_id b.track_id).0 (same (w.track_id == b.track_id) _ h)
  where
    same : (x y : Bool) → (if not x then false else y) ≡ true → x ≡ true
    same x y q = ground arith

inside-clear :
    (ws we es ee s e : ℤ)
    → (ltb_ℤ ws ee && ltb_ℤ es we) ≡ false
    → ws ≤ℤ s
    → e ≤ℤ we
    → (e ≤ℤ es) ⊎ (ee ≤ℤ s)
inside-clear ws we es ee s e h p q = elim (Bool-cases (ltb_ℤ ws ee)) [
  | inl t ↦ inl (ground arith)
  | inr f ↦ inr (ground arith)
]

-- After a possession is curtailed in a request that declares possession windows, every recovered
-- block on the event's track, or on any track if the event names none, lies outside the curtailed
-- interval.
pub recovery_avoids_curtailed :
    {F : Type 0} (py : Builtins F) (order : SetOrder) (cp : CpSolver) (r : OptimizationRequest F)
    (e : DisruptionEvent F) {sim : RecoverySimulation F} {s : ScheduledBlock F}
    → IsSound cp
    → UniqueIds r.candidates
    → r.possession_windows ≢ []
    → e.disruption_type ≡ possession_curtailment
    → simulate_disruption py order cp r e ≡ ok sim
    → In s sim.recovery_result.scheduled_blocks
    → on_track e s.track_id ≡ true
    → (s.end_minute ≤ℤ e.start_minute) ⊎ (e.end_minute ≤ℤ s.start_minute)
recovery_avoids_curtailed py order cp r e {sim} {s} sound u full kind h i on =
    let (a, b) = simulated py order cp r e h in
    let (c, j, same, t, cov) =
      scheduled_possession py order sim.updated_request cp sound
        (apply_disruption-UniqueIds r e sim.updated_request u a) b i
        (apply_disruption-keeps_protection r e sim.updated_request full a) in
    let w = cov.window in
    inside-clear w.start_minute w.end_minute e.start_minute e.end_minute s.start_minute s.end_minute
      (kept-clear r e sim.updated_request w kind a cov.declared
        (subst (λ x. on_track e x ≡ true) (t ∙ sym (covers-track w c cov.covers)) on))
      cov.opens cov.closes
