-- ===== src/Jobs/Plans/Field/Closed.antt =====
-- What an outcome of field work has passed in lifecycle.py, and how its event is read by
-- execution.py's `build_execution_records`.
use pashupatastra_sih.Prelude.{
  ℤ, ltb_ℤ, String, Bool, true, false, not, ◌||◌, some, List, [], ◌∷◌, ◌≡◌, refl, sym, ap, ◌∙◌,
  subst, ==_iff, ◌==◌, find, find-some, keep, In, In-keep, inl, inr, Bool-cases, not-eq_false,
}
use pashupatastra_sih.Result.{
  ok, >>=-eq-ok, >>-eq-ok, raise_if, raise_if-ok, ok_injective, execution_integrity,
  invalid_transition, stale_execution, committed_state_integrity, evidence_validation,
}
use pashupatastra_sih.Contracts.{text}
use pashupatastra_sih.Python.{Platform}
use pashupatastra_sih.Jobs.State.{Job, value_eq, proposal_run_id_of, execution_id_of}
use pashupatastra_sih.Jobs.Values.{value_eq_sound}
use pashupatastra_sih.Jobs.Accepted.{assert_single}
use pashupatastra_sih.Jobs.Guards.{is_consistent}
use pashupatastra_sih.Jobs.Guards.{
  is_in_progress, schedule_eq, schedule_of, assert_committed_state_consistent,
}
use pashupatastra_sih.Jobs.Execution.Ids.{proposal_id_for}
use pashupatastra_sih.Jobs.Execution.Platform.{IsPlatform}
use pashupatastra_sih.Jobs.Execution.Time.{
  parse_observed_at, require_not_in_future, observed_minute,
}
use pashupatastra_sih.Jobs.Execution.Evidence.{captured_moment}
use pashupatastra_sih.Jobs.Execution.Records.{ExecutionRecord, is_open, put_record, open_records}
use pashupatastra_sih.Jobs.Execution.Coherent.Put.{find-cases}
use pashupatastra_sih.Jobs.Plans.Human.{is_stale}
use pashupatastra_sih.Jobs.Plans.Field.{committed_block_digest}
use pashupatastra_sih.Jobs.Plans.Field.Outcome.{
  ExecutionEnd, is_current, open_execution_checks, observe_end,
}

-- The open execution that an outcome is about.
pub record IsCurrent {F : Type 0} (j : Job F) (execution_id : String) (r : ExecutionRecord)
    : Type 0 where
  pub named : r.execution_id ≡ execution_id
  pub open_now : is_open r.status ≡ true
  pub of_run : text r.optimization_run_id ≡ proposal_run_id_of j
  pub of_proposal : r.proposal_id ≡ proposal_id_for r.optimization_run_id j.job_id

six :
    (a b c d e f : Bool)
    → not (not a || (not b || (not c || (not d || (not e || not f))))) ≡ true
    → (b ≡ true) × (c ≡ true) × (d ≡ true) × (e ≡ true)
six true true true true true true h = (refl, refl, refl, refl)
six _ _ _ _ _ _ h = cc

is_current-IsCurrent :
    {F : Type 0} (j : Job F) (execution_id : String) (r : ExecutionRecord)
    → is_current j execution_id r ≡ true
    → IsCurrent j execution_id r
is_current-IsCurrent j execution_id r h =
    let facts =
      six (r.job_id == j.job_id) (r.execution_id == execution_id) (is_open r.status)
        (value_eq (text r.optimization_run_id) (proposal_run_id_of j))
        (r.proposal_id == proposal_id_for r.optimization_run_id j.job_id)
        (schedule_eq (some r.planned_start_minute, some r.planned_end_minute) (schedule_of j)) h in
    record {
      named = (==_iff r.execution_id execution_id).0 facts.0;
      open_now = facts.1;
      of_run = value_eq_sound (text r.optimization_run_id) (proposal_run_id_of j) facts.2;
      of_proposal =
          (==_iff r.proposal_id (proposal_id_for r.optimization_run_id j.job_id)).0 facts.3;
    }

pub record Checked {F : Type 0} (P : Platform) (j : Job F) (execution_id : String)
    (r : ExecutionRecord) (corridor_id digest : String) : Type 0 where
  pub consistent : is_consistent j ≡ true
  pub running : is_in_progress j.status ≡ true
  pub same_execution : execution_id_of j ≡ text execution_id
  pub current : IsCurrent j execution_id r
  pub same_digest : digest ≡ r.committed_block_digest
  pub of_block : committed_block_digest P j corridor_id r.optimization_run_id ≡ ok digest

pub checks-Checked :
    {F : Type 0} (P : Platform) (j : Job F) (execution_id : String) (r : ExecutionRecord)
    (corridor_id : String) {digest : String}
    → open_execution_checks P j execution_id r corridor_id ≡ ok digest
    → Checked P j execution_id r corridor_id digest
unfolding open_execution_checks
checks-Checked P j execution_id r corridor_id h =
    let (a, h1) = >>-eq-ok (assert_committed_state_consistent (j ∷ [])) _ h in
    let (b, h2) = >>-eq-ok (raise_if (not (is_in_progress j.status)) invalid_transition) _ h1 in
    let (c, h3) =
      >>-eq-ok (raise_if (is_stale (some execution_id) (execution_id_of j)) stale_execution) _ h2 in
    let (d, h4) =
      >>-eq-ok (raise_if (not (is_current j execution_id r)) execution_integrity) _ h3 in
    let (digest, e, h5) =
      >>=-eq-ok (committed_block_digest P j corridor_id r.optimization_run_id) _ h4 in
    let (f, h6) =
      >>-eq-ok
        (raise_if (not (digest == r.committed_block_digest))
          (committed_state_integrity (j.job_id ∷ [])))
        _ h5 in
    let same = ok_injective h6 in
    record {
      consistent = assert_single j a;
      running = not-eq_false (is_in_progress j.status) (raise_if-ok _ _ b);
      same_execution = sym (
          value_eq_sound (text execution_id) (execution_id_of j)
            (not-eq_false _ (raise_if-ok _ _ c)));
      current =
          is_current-IsCurrent j execution_id r
            (not-eq_false (is_current j execution_id r) (raise_if-ok _ _ d));
      same_digest =
          sym same
          ∙ (==_iff digest r.committed_block_digest).0
              (not-eq_false (digest == r.committed_block_digest) (raise_if-ok _ _ f));
      of_block = e ∙ ap ok same;
    }

-- The end that was observed is not before the start.
pub record Observed (P : Platform) (call : ExecutionEnd) (seen : ℤ × ℤ) : Type 0 where
  pub began : ℤ
  pub of_start : captured_moment P call.execution.actual_start_at ≡ ok began
  pub in_order : ltb_ℤ seen.0 began ≡ false

pub observe-Observed :
    (P : Platform) (call : ExecutionEnd) (now : ℤ) {seen : ℤ × ℤ}
    → observe_end P call now ≡ ok seen
    → Observed P call seen
unfolding observe_end
observe-Observed P call now h =
    let (ended, ee, h1) = >>=-eq-ok (parse_observed_at P call.actual_end_at) _ h in
    let (past, h2) = >>-eq-ok (require_not_in_future ended now) _ h1 in
    let (began, eb, h3) = >>=-eq-ok (captured_moment P call.execution.actual_start_at) _ h2 in
    let (after, h4) = >>-eq-ok (raise_if (ltb_ℤ ended began) evidence_validation) _ h3 in
    let (minute, em, h5) = >>=-eq-ok (observed_minute P ended call.horizon_start true) _ h4 in
    subst (Observed P call) (ok_injective h5)
      (record { began = began; of_start = eb; in_order = raise_if-ok _ _ after })

pub captured-iso :
    (P : Platform) (laws : IsPlatform P) (m : ℤ) → captured_moment P (P.to_iso m) ≡ ok m
unfolding captured_moment
captured-iso P laws m = rw (captured_moment, laws.iso_read m) refl

tail-empty : {A : Type 0} {a b : A} {us vs : List A} → (a ∷ us) ≡ (b ∷ vs) → vs ≡ [] → us ≡ []
tail-empty {us = []} e h = refl
tail-empty {us = u ∷ us} e h = cc

no_open :
    (order : List ExecutionRecord) {r : ExecutionRecord}
    → In r order
    → is_open r.status ≡ true
    → open_records order ≡ []
    → false ≡ true
no_open order i o h = empty (subst (In _) h (In-keep (λ x. is_open x.status) order i o))
  where
    empty : {x : ExecutionRecord} → In x [] → false ≡ true
    empty i = elim i [ ]

-- An outcome closes the only open execution.
pub open_records-put :
    (k : String) (r new : ExecutionRecord) (order : List ExecutionRecord) {x : ExecutionRecord}
    → find (λ y. y.execution_id == k) order ≡ some r
    → is_open r.status ≡ true
    → new.execution_id ≡ k
    → is_open new.status ≡ false
    → open_records order ≡ x ∷ []
    → open_records (put_record new order) ≡ []
unfolding find keep put_record
open_records-put k r new [] f o i c h = cc
open_records-put k r new (y ∷ order) f o i c h = elim (find-cases k y order f) [
  | inl (n, e) ↦
      let alike : (y.execution_id == new.execution_id) ≡ true =
        (==_iff y.execution_id new.execution_id).1 (n ∙ sym i) in
      let open_now : is_open y.status ≡ true = subst (λ z. is_open z.status ≡ true) (sym e) o in
      rw (alike, c) (tail-empty (rw open_now at h) refl)
  | inr (n, g) ↦
      let unlike : (y.execution_id == new.execution_id) ≡ false =
        subst (λ z. (y.execution_id == z) ≡ false) (sym i) n in
      elim (Bool-cases (is_open y.status)) [
        | inl t ↦ cc (
            no_open order (find-some (λ z. z.execution_id == k) order g).0 o
              (tail-empty (rw t at h) refl))
        | inr t ↦ rw (unlike, t) (open_records-put k r new order g o i c (rw t at h))
      ]
]
