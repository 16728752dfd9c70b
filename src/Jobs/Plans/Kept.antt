-- ===== src/Jobs/Plans/Kept.antt =====
-- lifecycle.py's `validate_mutation` of a mutation that keeps a job's status, block and schedule.
use pashupatastra_sih.Prelude.{
  ℤ, eqb_ℤ_refl, ◌≡◌, refl, String, Bool, true, false, not, Option, none, some, arith,
  if◌then◌else◌,
}
use pashupatastra_sih.Result.{ok, ◌>>◌, raise_if, >>-ok, invalid_transition}
use pashupatastra_sih.Jobs.State.{
  JobStatus, reported, scheduled, notified, in_progress, completed, Job, JobMutation, unchanged,
}
use pashupatastra_sih.Jobs.Values.{value_eq_refl}
use pashupatastra_sih.Jobs.Guards.{
  is_terminal, allowed_transition, is_committed_status, minute_eq, schedule_of, is_consistent,
  is_empty, block_is_committed, committed_state_problems, gate_release_transition,
  gate_execution_transition, required_kind,
}
use pashupatastra_sih.Jobs.Validation.{
  keeps_commitment, protect_committed, protect_committed_and_terminal_state,
  assert_placement_invariants, validate_mutation,
}
use pashupatastra_sih.Jobs.Accepted.{PlacementAgrees}
use pashupatastra_sih.Jobs.Protection.{IsWellFormed}
use pashupatastra_sih.Jobs.Plans.Accepts.{assert_consistent}

pub minute_eq_refl : (a : Option ℤ) → minute_eq a a ≡ true
minute_eq_refl none = refl
minute_eq_refl (some n) = eqb_ℤ_refl n

-- A job's mutation that changes the columns of the last optimization only.
abbrev pub kept_mutation :
    {F : Type 0} → Job F → Option String → Option String → Option String → JobMutation F
kept_mutation j updated_at solver_status reason = record (unchanged j) {
  updated_at = updated_at;
  last_solver_status = solver_status;
  last_refusal_reason = reason;
}

pub committed_parts :
    {F : Type 0} (st : JobStatus) (j : Job F)
    → is_committed_status st ≡ true
    → is_empty (committed_state_problems st j.block_candidate (schedule_of j)) ≡ true
    → (block_is_committed j.block_candidate.status ≡ true) × (j.block_candidate.is_committed ≡ true)
unfolding committed_state_problems
committed_parts notified j c h = (ground arith, ground arith)
committed_parts in_progress j c h = (ground arith, ground arith)
committed_parts _ j c h = cc

pub keeps-itself :
    {F : Type 0} (j : Job F)
    → is_committed_status j.status ≡ true
    → is_consistent j ≡ true
    → keeps_commitment j j.block_candidate (schedule_of j) ≡ true
unfolding keeps_commitment
keeps-itself j c h =
    let (a, b) = committed_parts j.status j c h in
    simp (a, b, minute_eq_refl, value_eq_refl) (ground arith)

kept-gate :
    {F : Type 0} (j : Job F) (st : JobStatus)
    → j.status ≡ st
    → is_terminal st ≡ false
    → gate_execution_transition j st j.block_candidate none none ≡ ok tt
unfolding gate_execution_transition gate_release_transition required_kind
kept-gate j reported s t = rw s refl
kept-gate j scheduled s t = rw s refl
kept-gate j notified s t = rw s refl
kept-gate j in_progress s t = rw s refl
kept-gate j completed s t = cc

protect-itself :
    {F : Type 0} (j : Job F) (st : JobStatus)
    → j.status ≡ st
    → is_committed_status st ≡ true
    → keeps_commitment j j.block_candidate (schedule_of j) ≡ true
    → protect_committed j st j.block_candidate (schedule_of j) ≡ ok tt
unfolding protect_committed
protect-itself j notified s c k = simp (s, k)
protect-itself j in_progress s c k = simp (s, k)
protect-itself j reported s c k = cc
protect-itself j scheduled s c k = cc
protect-itself j completed s c k = cc

kept-protected :
    {F : Type 0} (j : Job F) (b : Bool)
    → is_committed_status j.status ≡ b
    → is_consistent j ≡ true
    → (if b then protect_committed j j.status j.block_candidate (schedule_of j) else ok tt) ≡ ok tt
kept-protected j false c w = refl
kept-protected j true c w = protect-itself j j.status refl c (keeps-itself j c w)

kept-placed :
    (st : JobStatus) (s e : Option ℤ)
    → is_terminal st ≡ false
    → PlacementAgrees st (s, e)
    → (raise_if (not (allowed_transition st st)) invalid_transition
        >> assert_placement_invariants st (s, e))
      ≡ ok tt
unfolding assert_placement_invariants
kept-placed reported s e t p = rw (p.0, p.1) refl
kept-placed scheduled s e t p = rw p refl
kept-placed notified s e t p = rw p refl
kept-placed in_progress s e t p = rw p refl
kept-placed completed s e t p = cc

-- Such a mutation of a well-formed job that is not completed is accepted.
pub validate-kept :
    {F : Type 0} (j : Job F) (updated_at solver_status reason : Option String)
    → IsWellFormed j
    → is_terminal j.status ≡ false
    → validate_mutation j (kept_mutation j updated_at solver_status reason) ≡ ok tt
unfolding validate_mutation protect_committed_and_terminal_state unchanged
validate-kept j u v r w t =
    >>-ok
      (>>-ok (rw t refl) (
        >>-ok (assert_consistent j w.consistent) (
          >>-ok (rw w.consistent refl) (
            >>-ok (kept-gate j j.status refl t)
              (kept-protected j (is_committed_status j.status) refl w.consistent)))))
      (kept-placed j.status j.schedule_start_minute j.schedule_end_minute t w.placed)
