-- ===== src/Jobs/Absent.antt =====
-- The rows that are absent before a write of repository.py.
use pashupatastra_sih.Prelude.{
  ◌≡◌, refl, ◌∙◌, subst, String, Bool, none, some, List, ◌==◌, Option-cases, inl, inr,
  if◌then◌else◌, arith,
}
use pashupatastra_sih.Result.{>>-eq-ok, raise_if, ok_injective, terminal_job, committed_job}
use pashupatastra_sih.Jobs.State.{scheduled, Job}
use pashupatastra_sih.Jobs.Guards.{is_terminal, is_committed_status, schedule_of}
use pashupatastra_sih.Jobs.Validation.{
  assert_placement_invariants, protect_committed_and_terminal_state,
}
use pashupatastra_sih.Jobs.Store.{
  Store, row, update, update_status, update_schedule, record_refusal, mirrored, placed_block,
}
use pashupatastra_sih.Jobs.Rows.{row-update, mutate_jobs-Ran}
use pashupatastra_sih.Jobs.Steps.{Step, mutated, status_updated, schedule_updated, refusal_recorded}

update-absent :
    {F : Type 0} (k i : String) (f : Job F → Job F) (js : List (Job F))
    → ((x : Job F) → (f x).job_id ≡ x.job_id)
    → row k js ≡ none
    → row k (update i f js) ≡ none
update-absent k i f js h n = row-update k f i js h ∙ still (i == k)
  where
    still :
        (b : Bool)
        → (if b then elim (row k js) [ none ↦ none | some j ↦ some (f j) ] else row k js) ≡ none
    still b = ground arith

-- No step makes a row.
pub Step-absent :
    {F : Type 0} (k : String) (store : Store F) {store' : Store F}
    → row k store.rows ≡ none
    → Step store store'
    → row k store'.rows ≡ none
unfolding update_status update_schedule record_refusal
Step-absent k store n (mutated ks plan rt e) = (mutate_jobs-Ran ks plan rt store e).absent k n
Step-absent k store n (status_updated i st t b c e) = elim (Option-cases (row i store.rows)) [
  | inl m ↦ subst (λ s. row k s.rows ≡ none) (ok_injective (rw (m, update_status) at e)) n
  | inr (current, q) ↦
      let (a, e1) =
        >>-eq-ok
          (protect_committed_and_terminal_state current st (mirrored current.block_candidate b c)
            (schedule_of current) none none)
          _ (rw (q, update_status) at e) in
      let (d, e2) = >>-eq-ok (assert_placement_invariants st (schedule_of current)) _ e1 in
      subst (λ s. row k s.rows ≡ none) (ok_injective e2)
        (update-absent k i _ store.rows (λ x. refl) n)
]
Step-absent k store n (schedule_updated i s f t v e) = elim (Option-cases (row i store.rows)) [
  | inl m ↦ subst (λ s. row k s.rows ≡ none) (ok_injective (rw (m, update_schedule) at e)) n
  | inr (current, q) ↦
      let (a, e1) =
        >>-eq-ok
          (protect_committed_and_terminal_state current scheduled (placed_block s f current)
            (some s, some f) none none)
          _ (rw (q, update_schedule) at e) in
      subst (λ s. row k s.rows ≡ none) (ok_injective e1)
        (update-absent k i _ store.rows (λ x. refl) n)
]
Step-absent k store n (refusal_recorded i r t v e) = elim (Option-cases (row i store.rows)) [
  | inl m ↦ subst (λ s. row k s.rows ≡ none) (ok_injective (rw (m, record_refusal) at e)) n
  | inr (current, q) ↦
      let (a, e1) =
        >>-eq-ok (raise_if (is_terminal current.status) terminal_job) _
          (rw (q, record_refusal) at e) in
      let (d, e2) = >>-eq-ok (raise_if (is_committed_status current.status) committed_job) _ e1 in
      subst (λ s. row k s.rows ≡ none) (ok_injective e2)
        (update-absent k i _ store.rows (λ x. refl) n)
]
