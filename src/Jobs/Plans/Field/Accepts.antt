-- ===== src/Jobs/Plans/Field/Accepts.antt =====
-- lifecycle.py's `validate_mutation` of the mutations that the plans of field execution write, and the
-- tokens of these mutations.
use pashupatastra_sih.Prelude.{
  ℤ, max_ℤ, ◌≡◌, refl, sym, subst, String, true, false, none, if◌then◌else◌, ◌==◌, arith,
}
use pashupatastra_sih.Prelude.Dict.{Dict, put, get-put}
use pashupatastra_sih.Result.{ok, >>-ok, pass, pass_not, terminal_job, committed_job}
use pashupatastra_sih.Contracts.{BlockCandidate, Value, text, truthy}
use pashupatastra_sih.Jobs.State.{
  JobStatus, reported, notified, in_progress, completed, execution_id_of, start, Job, unchanged,
  get_value, value_eq, execution_id_key, committed_start_key, committed_end_key,
  proposal_run_id_key,
}
use pashupatastra_sih.Jobs.Values.{value_eq_refl}
use pashupatastra_sih.Jobs.Guards.{
  is_window, is_empty, is_consistent, schedule_of, block_is_committed, committed_state_problems,
  gate_release_transition, gate_execution_transition, check_execution_token, named_execution,
  required_kind,
}
use pashupatastra_sih.Jobs.Validation.{
  keeps_commitment, protect_committed, protect_committed_and_terminal_state,
  assert_placement_invariants, validate_mutation,
}
use pashupatastra_sih.Jobs.Plans.Accepts.{assert_consistent, released-fully}
use pashupatastra_sih.Jobs.Plans.Kept.{minute_eq_refl, committed_parts, keeps-itself}
use pashupatastra_sih.Jobs.Plans.Blocks.{withdrawn}
use pashupatastra_sih.Jobs.Plans.Human.{reject_mutation}
use pashupatastra_sih.Jobs.Plans.Field.Outcome.{
  ExecutionEnd, complete_mutation, not_completed_mutation,
}
use pashupatastra_sih.Jobs.Plans.Field.Start.{ExecutionStart, start_mutation}

-- A value of the block's metadata after the execution's id is written.
value-after :
    (k id : String) (d : Dict Value)
    → get_value k (put execution_id_key (text id) d)
      ≡ (if execution_id_key == k then text id else get_value k d)
value-after k id d = ground (arith, get-put k execution_id_key (text id) d)

module _ {F : Type 0} (j : Job F) (call : ExecutionStart) (s : j.status ≡ notified)
    (w : is_consistent j ≡ true) (filled : (call.execution_id == "") ≡ false) where
  abbrev new_block : BlockCandidate F
  new_block = (start_mutation j call).block_candidate

  named_now : get_value execution_id_key new_block.metadata ≡ text call.execution_id
  unfolding start_mutation
  named_now = value-after execution_id_key call.execution_id j.block_candidate.metadata

  notified-parts :
      (block_is_committed j.block_candidate.status ≡ true)
      × (j.block_candidate.is_committed ≡ true)
      × (is_window (schedule_of j) ≡ true)
  unfolding committed_state_problems
  notified-parts =
      let (a, b) = committed_parts j.status j (rw s refl) w in (a, b, window j.status s w)
    where
      window :
          (st : JobStatus)
          → st ≡ notified
          → is_empty (committed_state_problems st j.block_candidate (schedule_of j)) ≡ true
          → is_window (schedule_of j) ≡ true
      window notified e h = ground arith
      window _ e h = cc

  no-problems : is_empty (committed_state_problems in_progress new_block (schedule_of j)) ≡ true
  unfolding committed_state_problems start_mutation truthy
  no-problems = let (a, b, c) = notified-parts in rw (named_now, filled, a, b, c) refl

  token-start : check_execution_token j new_block start (start_mutation j call).execution ≡ ok tt
  unfolding check_execution_token named_execution start_mutation
  token-start =
      let same : value_eq (get_value execution_id_key new_block.metadata) (text call.execution_id)
          ≡ true =
        subst (λ v. value_eq v (text call.execution_id) ≡ true) (sym named_now)
          (value_eq_refl (text call.execution_id)) in
      simp (s, same)

  gate-start :
      gate_execution_transition j in_progress new_block (start_mutation j call).execution none
      ≡ ok tt
  unfolding gate_execution_transition gate_release_transition required_kind start_mutation
      check_execution_token
  gate-start = simp s token-start

  keeps-start : protect_committed j in_progress new_block (schedule_of j) ≡ ok tt
  unfolding protect_committed keeps_commitment start_mutation
  keeps-start =
      let (a, b, c) = notified-parts in
      let d = j.block_candidate.metadata in
      simp (
        s,
        a,
        b,
        minute_eq_refl,
        value-after committed_start_key call.execution_id d,
        value-after committed_end_key call.execution_id d,
        value-after proposal_run_id_key call.execution_id d,
        value_eq_refl,
      )

  pub validate-start : validate_mutation j (start_mutation j call) ≡ ok tt
  unfolding validate_mutation protect_committed_and_terminal_state assert_placement_invariants
      start_mutation unchanged
  validate-start =
      let (a, b, c) = notified-parts in
      >>-ok
        (pass terminal_job (rw s refl) (
          >>-ok (assert_consistent j w)
            (pass_not committed_job no-problems (>>-ok gate-start (simp s keeps-start)))))
        (rw (s, c) refl)

module _ {F : Type 0} (j : Job F) (call : ExecutionEnd) (s : j.status ≡ in_progress)
    (w : is_consistent j ≡ true) (same : execution_id_of j ≡ text call.execution_id) where
  gate_complete :
      gate_execution_transition j completed j.block_candidate
        (complete_mutation j call).execution
        none
      ≡ ok tt
  unfolding gate_execution_transition gate_release_transition required_kind complete_mutation
      check_execution_token named_execution
  gate_complete =
      let named : value_eq (execution_id_of j) (text call.execution_id) ≡ true =
        subst (λ v. value_eq v (text call.execution_id) ≡ true) (sym same)
          (value_eq_refl (text call.execution_id)) in
      simp (s, named)

  pub validate_complete : validate_mutation j (complete_mutation j call) ≡ ok tt
  unfolding validate_mutation protect_committed_and_terminal_state assert_placement_invariants
      complete_mutation unchanged committed_state_problems protect_committed
  validate_complete =
      >>-ok
        (>>-ok (rw s refl) (
          >>-ok (assert_consistent j w)
            (>>-ok refl (>>-ok gate_complete (simp (s, keeps-itself j (rw s refl) w))))))
        (rw s refl)

  module _ (reason : String) (released_end minute horizon : ℤ) where
    gate-not_completed :
        gate_execution_transition j reported
          (not_completed_mutation j call reason released_end minute horizon).block_candidate
          (not_completed_mutation j call reason released_end minute horizon).execution
          none
        ≡ ok tt
    unfolding gate_execution_transition gate_release_transition required_kind not_completed_mutation
        check_execution_token named_execution
    gate-not_completed =
        let named : value_eq (execution_id_of j) (text call.execution_id) ≡ true =
          subst (λ v. value_eq v (text call.execution_id) ≡ true) (sym same)
            (value_eq_refl (text call.execution_id)) in
        simp (s, named)

    pub validate-not_completed :
        validate_mutation j (not_completed_mutation j call reason released_end minute horizon)
        ≡ ok tt
    unfolding validate_mutation protect_committed_and_terminal_state committed_state_problems
        assert_placement_invariants not_completed_mutation reject_mutation withdrawn unchanged
        protect_committed
    validate-not_completed =
        >>-ok
          (>>-ok (rw s refl) (
            >>-ok (assert_consistent j w) (
              >>-ok refl (
                >>-ok gate-not_completed (
                  rw (s, released-fully j.block_candidate (max_ℤ released_end minute) horizon true)
                    refl)))))
          (rw s refl)
