-- ===== src/Jobs/Accepted.antt =====
-- What it means that `validate_mutation` of lifecycle.py lets a write pass.
use pashupatastra_sih.Prelude.{
  ◌≡◌, true, false, not, Option, none, ◌⊎◌, inl, inr, [], ◌∷◌, keep, arith, Bool-cases,
  not-eq_false,
}
use pashupatastra_sih.Result.{ok, >>-eq-ok, raise_if, raise_if-ok}
use pashupatastra_sih.Contracts.{BlockCandidate}
use pashupatastra_sih.Jobs.State.{
  JobStatus, reported, scheduled, notified, in_progress, completed, Job, JobMutation,
  ExecutionTransition, AuthorityRelease,
}
use pashupatastra_sih.Jobs.Guards.{
  is_terminal, is_committed_status, allowed_transition, is_reported, Schedule, is_window,
  is_consistent, is_empty, committed_state_problems, assert_committed_state_consistent,
  gate_execution_transition,
}
use pashupatastra_sih.Jobs.Validation.{
  fully_released, keeps_commitment, protect_committed, protect_committed_and_terminal_state,
  assert_placement_invariants, new_schedule, validate_mutation,
}

-- A status and its placement agree: `reported` has none, and `scheduled`, `notified` and
-- `in_progress` have a window.
abbrev pub PlacementAgrees : JobStatus → Schedule → Type 0
PlacementAgrees reported s = (s.0 ≡ none) × (s.1 ≡ none)
PlacementAgrees completed s = Unit
PlacementAgrees _ s = is_window s ≡ true

-- The facts that the checks of one write establish.
pub record Accepted {F : Type 0} (current : Job F) (status : JobStatus) (block : BlockCandidate F)
    (schedule : Schedule) (execution : Option ExecutionTransition)
    (release : Option AuthorityRelease) : Type 0 where
  pub not_terminal : is_terminal current.status ≡ false
  pub was_consistent : is_consistent current ≡ true
  pub stays_consistent : is_empty (committed_state_problems status block schedule) ≡ true
  pub gate : gate_execution_transition current status block execution release ≡ ok tt
  pub commitment :
      is_committed_status current.status ≡ true
      → ((is_reported status ≡ true) × (fully_released block schedule ≡ true))
        ⊎ ((is_reported status ≡ false) × (keeps_commitment current block schedule ≡ true))

pub assert_single :
    {F : Type 0} (j : Job F)
    → assert_committed_state_consistent (j ∷ []) ≡ ok tt
    → is_consistent j ≡ true
unfolding assert_committed_state_consistent keep
assert_single j h = ground arith

protect_committed-cases :
    {F : Type 0} (current : Job F) (status : JobStatus) (block : BlockCandidate F)
    (schedule : Schedule)
    → protect_committed current status block schedule ≡ ok tt
    → ((is_reported status ≡ true) × (fully_released block schedule ≡ true))
      ⊎ ((is_reported status ≡ false) × (keeps_commitment current block schedule ≡ true))
unfolding protect_committed
protect_committed-cases current status block schedule h = elim (Bool-cases (is_reported status)) [
  | inl t ↦ inl (t, ground arith)
  | inr f ↦ inr (f, ground arith)
]

pub protect-Accepted :
    {F : Type 0} (current : Job F) (status : JobStatus) (block : BlockCandidate F)
    (schedule : Schedule) (execution : Option ExecutionTransition)
    (release : Option AuthorityRelease)
    → protect_committed_and_terminal_state current status block schedule execution release ≡ ok tt
    → Accepted current status block schedule execution release
unfolding protect_committed_and_terminal_state
protect-Accepted current status block schedule execution release h =
    let (a, h1) = >>-eq-ok (raise_if (is_terminal current.status) _) _ h in
    let (b, h2) = >>-eq-ok (assert_committed_state_consistent (current ∷ [])) _ h1 in
    let (c, h3) =
      >>-eq-ok (raise_if (not (is_empty (committed_state_problems status block schedule))) _) _
        h2 in
    let (d, h4) =
      >>-eq-ok (gate_execution_transition current status block execution release) _ h3 in
    record {
      not_terminal = raise_if-ok (is_terminal current.status) _ a;
      was_consistent = assert_single current b;
      stays_consistent =
          not-eq_false (is_empty (committed_state_problems status block schedule))
            (raise_if-ok (not (is_empty (committed_state_problems status block schedule))) _ c);
      gate = d;
      commitment = λ t. protect_committed-cases current status block schedule (rw t at h4);
    }

assert_placement-agrees :
    (status : JobStatus) (schedule : Schedule)
    → assert_placement_invariants status schedule ≡ ok tt
    → PlacementAgrees status schedule
unfolding assert_placement_invariants
assert_placement-agrees reported (s, e) h = ground arith
assert_placement-agrees scheduled (s, e) h = ground arith
assert_placement-agrees notified (s, e) h = ground arith
assert_placement-agrees in_progress (s, e) h = ground arith
assert_placement-agrees completed (s, e) h = tt

-- A validated mutation is accepted, follows an edge of the transition graph, and has a placement
-- that agrees with its status.
pub record Valid {F : Type 0} (current : Job F) (m : JobMutation F) : Type 0 where
  pub accepted : Accepted current m.status m.block_candidate (new_schedule m) m.execution m.release
  pub allowed : allowed_transition current.status m.status ≡ true
  pub agrees : PlacementAgrees m.status (new_schedule m)

pub validate-Valid :
    {F : Type 0} (current : Job F) (m : JobMutation F)
    → validate_mutation current m ≡ ok tt
    → Valid current m
unfolding validate_mutation
validate-Valid current m h =
    let (a, h1) =
      >>-eq-ok
        (protect_committed_and_terminal_state current m.status m.block_candidate (new_schedule m)
          m.execution m.release)
        _ h in
    let (b, h2) = >>-eq-ok (raise_if (not (allowed_transition current.status m.status)) _) _ h1 in
    record {
      accepted =
          protect-Accepted current m.status m.block_candidate (new_schedule m) m.execution m.release
            a;
      allowed = not-eq_false (allowed_transition current.status m.status) (raise_if-ok _ _ b);
      agrees = assert_placement-agrees m.status (new_schedule m) h2;
    }
