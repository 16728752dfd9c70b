-- ===== src/Jobs/Plans/Accepts.antt =====
-- lifecycle.py's `validate_mutation` of the mutations that its decisions about a proposal write.
use pashupatastra_sih.Prelude.{
  ℤ, ◌≡◌, refl, String, Bool, true, false, none, some, [], ◌∷◌, keep, ==_iff,
}
use pashupatastra_sih.Prelude.Dict.{contains, get-pop}
use pashupatastra_sih.Result.{ok, >>-ok}
use pashupatastra_sih.Contracts.{BlockCandidate, text}
use pashupatastra_sih.Jobs.State.{
  reported, scheduled, notified, Job, unchanged, value_eq, proposal_run_id_of, execution_id_key,
}
use pashupatastra_sih.Jobs.Guards.{
  is_window, schedule_of, is_consistent, committed_state_problems,
  assert_committed_state_consistent, gate_release_transition, gate_execution_transition,
  required_kind,
}
use pashupatastra_sih.Jobs.Validation.{
  protect_committed_and_terminal_state, protect_committed, fully_released,
  assert_placement_invariants, validate_mutation,
}
use pashupatastra_sih.Jobs.Plans.Blocks.{
  committed_block, withdrawn, without_placement, raise_not_before,
}
use pashupatastra_sih.Jobs.Plans.Human.{
  commit_mutation, reject_mutation, postpone_mutation, release_mutation,
}

pub validate-commit :
    {F : Type 0} (j : Job F) (at_time : String)
    → j.status ≡ scheduled
    → is_window (schedule_of j) ≡ true
    → contains execution_id_key j.block_candidate.metadata ≡ false
    → validate_mutation j (commit_mutation j at_time) ≡ ok tt
unfolding validate_mutation protect_committed_and_terminal_state assert_committed_state_consistent
    gate_execution_transition gate_release_transition required_kind committed_state_problems
    assert_placement_invariants commit_mutation committed_block unchanged keep
validate-commit j at_time s w n = rw (s, w, n) refl

pub validate-reject :
    {F : Type 0} (j : Job F) (at_time reason : String)
    → j.status ≡ scheduled
    → validate_mutation j (reject_mutation j at_time reason) ≡ ok tt
unfolding validate_mutation protect_committed_and_terminal_state assert_committed_state_consistent
    gate_execution_transition gate_release_transition required_kind committed_state_problems
    assert_placement_invariants reject_mutation withdrawn unchanged keep
validate-reject j at_time reason s = rw s refl

pub validate-postpone :
    {F : Type 0} (j : Job F) (at_time reason : String) (not_before horizon : ℤ)
    → j.status ≡ scheduled
    → validate_mutation j (postpone_mutation j at_time reason not_before horizon) ≡ ok tt
unfolding validate_mutation protect_committed_and_terminal_state assert_committed_state_consistent
    gate_execution_transition gate_release_transition required_kind committed_state_problems
    assert_placement_invariants postpone_mutation reject_mutation withdrawn unchanged keep
validate-postpone j at_time reason not_before horizon s = rw s refl

-- `_without_placement` and `_raise_not_before` together withdraw the commitment completely.
pub released-fully :
    {F : Type 0} (block : BlockCandidate F) (not_before horizon : ℤ) (never_lower : Bool)
    → fully_released
        (raise_not_before (without_placement block) not_before horizon never_lower).0
        (none, none)
      ≡ true
unfolding fully_released raise_not_before without_placement
released-fully block not_before horizon never_lower = simp get-pop

pub assert_consistent :
    {F : Type 0} (j : Job F)
    → is_consistent j ≡ true
    → assert_committed_state_consistent (j ∷ []) ≡ ok tt
unfolding assert_committed_state_consistent keep
assert_consistent j w = rw w refl

gate-release-passes :
    {F : Type 0} (j : Job F) (at_time reason run : String) (released_end horizon : ℤ)
    → j.status ≡ notified
    → proposal_run_id_of j ≡ text run
    → gate_execution_transition j reported
        (release_mutation j at_time reason released_end horizon run).block_candidate
        none
        (some (record { proposal_run_id = run }))
      ≡ ok tt
unfolding gate_execution_transition gate_release_transition required_kind value_eq
gate-release-passes j at_time reason run released_end horizon s q =
    rw (s, q, (==_iff run run).1 refl) refl

pub validate-release :
    {F : Type 0} (j : Job F) (at_time reason run : String) (released_end horizon : ℤ)
    → j.status ≡ notified
    → is_consistent j ≡ true
    → proposal_run_id_of j ≡ text run
    → validate_mutation j (release_mutation j at_time reason released_end horizon run) ≡ ok tt
unfolding validate_mutation protect_committed_and_terminal_state committed_state_problems
    assert_placement_invariants release_mutation reject_mutation withdrawn unchanged
    protect_committed
validate-release j at_time reason run released_end horizon s w q =
    >>-ok
      (>>-ok (rw s refl) (
        >>-ok (assert_consistent j w) (
          >>-ok refl (
            >>-ok (gate-release-passes j at_time reason run released_end horizon s q)
              (rw (s, released-fully j.block_candidate released_end horizon true) refl)))))
      (rw s refl)
