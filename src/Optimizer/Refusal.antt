-- ===== src/Optimizer/Refusal.antt =====
-- The safety refusal of solver.py's `solve` for work that no possession window covers.
use pashupatastra_sih.Prelude.{
  ◌≡◌, sym, ap, ◌∙◌, subst, ◌≢◌, inl, inr, true, false, some, List, [], any_intro, In, keep, String,
  ℤ, if◌then◌else◌,
}
use pashupatastra_sih.Prelude.Dict.{get}
use pashupatastra_sih.Result.{ok}
use pashupatastra_sih.Contracts.{
  BlockCandidate, OptimizationRequest, OptimizationResult, no_possession_covers,
}
use pashupatastra_sih.Python.{Builtins, SetOrder}
use pashupatastra_sih.Optimizer.Cp.{CpSolver, IsSound}
use pashupatastra_sih.Optimizer.Solver.{
  horizon_of, does_not_fit, uncovered, possession_window_covers_block, possession_uncovered, member,
  ids,
}
use pashupatastra_sih.Optimizer.Solve.{solve, rejection_reason}
use pashupatastra_sih.Optimizer.Unique.{UniqueIds, eq_of_id, member-keep}
use pashupatastra_sih.Optimizer.Possession.{control_active, Covered, scheduled_possession}
use pashupatastra_sih.Optimizer.Commitment.{IsSolved}
use pashupatastra_sih.Optimizer.Accounting.{solve-Accounted, solved-reason}

-- Where the request declares possession windows and `solve` finds a solution, a candidate that
-- fits its own time window but that no declared possession window covers is left out, whether it
-- is committed or not, and its reason is the safety refusal for its track. CP-SAT is assumed to be
-- sound and the ids distinct.
pub uncovered_refused :
    {F : Type 0} (py : Builtins F) (order : SetOrder) (r : OptimizationRequest F) (cp : CpSolver)
    {res : OptimizationResult F} {b : BlockCandidate F}
    → IsSound cp
    → UniqueIds r.candidates
    → solve py order r cp ≡ ok res
    → IsSolved res.status
    → r.possession_windows ≢ []
    → In b r.candidates
    → uncovered r b ≡ true
    → does_not_fit (horizon_of r) b ≡ false
    → In b res.unscheduled_blocks
      × (get b.block_id res.rejection_reasons ≡ some (no_possession_covers b.track_id))
unfolding rejection_reason
uncovered_refused {F} py order r cp {res} {b} sound u e solved full i open_track fits =
    elim (solve-Accounted py order r u cp e i) [
      | inl (s, j, q, w) ↦
          let (c, ic, qc, on_track, cov) = scheduled_possession py order r cp sound u e j full in
          absurd (clash (eq_of_id r.candidates u ic i (sym qc ∙ q)) cov)
      | inr (left, w, away) ↦
          let (done, g) = solved-reason py order r u cp e solved left in
          (left, g ∙ ap some (reason done))
    ]
  where
    clash : {c : BlockCandidate F} {x y : ℤ} → c ≡ b → Covered r c x y → ⊥
    clash q cov =
        let found =
          any_intro (λ w. possession_window_covers_block w b) r.possession_windows cov.declared
            (subst (λ d. possession_window_covers_block cov.window d ≡ true) q cov.covers) in
        cc (rw found at open_track)

    in_set : member b.block_id (possession_uncovered r) ≡ true
    in_set =
        subst
          (λ a. member b.block_id (if a then ids (keep (uncovered r) r.candidates) else []) ≡ true)
          (sym (control_active r full)) (member-keep (uncovered r) r.candidates u i ∙ open_track)

    reason :
        (done : List String) → rejection_reason py order r done b ≡ no_possession_covers b.track_id
    reason done = rw (
      rejection_reason,
      member-keep (does_not_fit (horizon_of r)) r.candidates u i ∙ fits,
      in_set,
    )
