-- ===== src/Jobs/Effects.antt =====
-- What each write of repository.py does to a stored row.
use pashupatastra_sih.Prelude.{
  ℤ, ◌≡◌, refl, sym, ap, ◌∙◌, subst, String, Bool, true, false, Option, none, some, List, [], ◌∷◌,
  ◌++◌, ==_iff, ◌==◌, Bool-cases, Option-cases, inl, inr, some_injective, if◌then◌else◌, arith,
}
use pashupatastra_sih.Result.{
  ok, >>-eq-ok, raise_if, raise_if-ok, ok_injective, terminal_job, committed_job,
}
use pashupatastra_sih.Contracts.{BlockStatus, text}
use pashupatastra_sih.Jobs.State.{
  JobStatus, scheduled, Job, JobMutation, JobEventType, as_job, get_value, execution_id_key,
  released_run_id_key,
}
use pashupatastra_sih.Jobs.Guards.{is_terminal, is_committed_status, schedule_of}
use pashupatastra_sih.Jobs.Validation.{
  is_execution_completed, is_block_released, assert_placement_invariants,
  protect_committed_and_terminal_state,
}
use pashupatastra_sih.Jobs.Store.{
  Store, row, update, Plan, mutate_jobs, update_status, update_schedule, record_refusal, mirrored,
  placed_block,
}
use pashupatastra_sih.Jobs.Values.{value_eq_sound}
use pashupatastra_sih.Jobs.Tokens.{execution-event, release-event}
use pashupatastra_sih.Jobs.Accepted.{Accepted, protect-Accepted}
use pashupatastra_sih.Jobs.Rows.{row-update, last_mutation, Written, Ran, mutate_jobs-Ran}
use pashupatastra_sih.Jobs.Steps.{
  Step, mutated, status_updated, schedule_updated, refusal_recorded, Change, unmoved, refused,
  moved, Stepped,
}

no_completion :
    {P : Type 0} (ty : JobEventType)
    → is_block_released ty ≡ true
    → is_execution_completed ty ≡ true
    → P
no_completion ty r c = ground arith

append_nil : {A : Type 0} (xs : List A) → xs ≡ xs ++ []
append_nil [] = refl
append_nil (x ∷ xs) = ap (λ ys. x ∷ ys) (append_nil xs)

module _ {F : Type 0} (k : String) (j : Job F) (store : Store F)
    (found : row k store.rows ≡ some j) where
  mutated-Stepped :
      {store' : Store F} (ks : List String) (plan : Plan F) (reject_terminal : Bool)
      → mutate_jobs ks plan reject_terminal store ≡ ok store'
      → Stepped k j store store'
  unfolding as_job
  mutated-Stepped {store'} ks plan reject_terminal e =
      let (j', r, w) = ran.written k j found in
      record {
        after = j';
        new_events = ran.new_events;
        stored = r;
        log = ran.log;
        change = change (last_mutation k none ran.mutations) j' refl w;
      }
    where
      ran : Ran plan store store'
      ran = mutate_jobs-Ran ks plan reject_terminal store e

      change :
          (o : Option (JobMutation F)) (j' : Job F)
          → last_mutation k none ran.mutations ≡ o
          → Written j o j'
          → Change k j j' ran.new_events
      change none j' l w = unmoved w
      change (some m) j' l w =
          subst (λ x. Change k j x ran.new_events) (sym w.1)
            (moved m.execution m.release w.0.accepted
              (λ t q.
                let (ev, i, same, ty, named, evidence) =
                  execution-event k ran.mutations ran.new_events ran.executions l q in
                record {
                  event = ev;
                  logged = i;
                  of_job = same;
                  of_type = ty;
                  names_it =
                      value_eq_sound (get_value execution_id_key ev.metadata) (text t.execution_id)
                        named;
                  evidence = evidence;
                })
              (λ t q.
                let (ev, i, same, ty, named) =
                  release-event k ran.mutations ran.new_events ran.releases l q in
                record {
                  event = ev;
                  logged = i;
                  of_job = same;
                  of_type = ty;
                  names_it =
                      value_eq_sound (get_value released_run_id_key ev.metadata)
                        (text t.proposal_run_id) named;
                  evidence = λ c. no_completion ev.event_type ty c;
                }))

  -- A write of one row by its id, which adds no event.
  updated-Stepped :
      (i : String) (f : Job F → Job F) (current : Job F) {store' : Store F}
      → ((x : Job F) → (f x).job_id ≡ x.job_id)
      → row i store.rows ≡ some current
      → record store { rows = update i f store.rows } ≡ store'
      → (i ≡ k → current ≡ j → Change k j (f j) [])
      → Stepped k j store store'
  updated-Stepped i f current {store'} same stored e change =
      subst (Stepped k j store) e (elim (Bool-cases (i == k)) [
        | inl t ↦ here_k ((==_iff i k).0 t) (rw (t, found) at next)
        | inr n ↦ record {
          after = j;
          new_events = [];
          stored = rw (n, found) at next;
          log = append_nil store.events;
          change = unmoved refl;
        }
      ])
    where
      next : row k (update i f store.rows) ≡ (
          if i == k
          then elim (row k store.rows) [ none ↦ none | some x ↦ some (f x) ]
          else row k store.rows)
      next = row-update k f i store.rows same

      here_k :
          i ≡ k
          → row k (update i f store.rows) ≡ some (f j)
          → Stepped k j store (record store { rows = update i f store.rows })
      here_k q r = record {
        after = f j;
        new_events = [];
        stored = r;
        log = append_nil store.events;
        change =
            change q (
              some_injective (sym (subst (λ x. row x store.rows ≡ some current) q stored) ∙ found));
      }

  unchanged_store : {store' : Store F} → store ≡ store' → Stepped k j store store'
  unchanged_store h = subst (Stepped k j store) h (record {
    after = j;
    new_events = [];
    stored = found;
    log = append_nil store.events;
    change = unmoved refl;
  })

  status_updated-Stepped :
      {store' : Store F} (i : String) (status : JobStatus) (at_time : Option String)
      (block_status : Option BlockStatus) (is_committed : Option Bool)
      → update_status i status at_time block_status is_committed store ≡ ok store'
      → Stepped k j store store'
  unfolding update_status
  status_updated-Stepped {store'} i status at_time block_status is_committed e =
      elim (Option-cases (row i store.rows)) [
        | inl n ↦ unchanged_store (ok_injective (rw (n, update_status) at e))
        | inr (current, q) ↦
            let (a, e1) =
              >>-eq-ok
                (protect_committed_and_terminal_state current status _ (schedule_of current) none
                  none)
                _ (rw (q, update_status) at e) in
            let (b, e2) =
              >>-eq-ok (assert_placement_invariants status (schedule_of current)) _ e1 in
            updated-Stepped i _ current (λ x. refl) q (ok_injective e2)
              (λ t same.
                moved none none
                  (subst
                    (λ (x : Job F).
                      Accepted x status (mirrored current.block_candidate block_status is_committed)
                        (schedule_of x) none none)
                    same (protect-Accepted current status _ (schedule_of current) none none a))
                  (λ t q. cc) (λ t q. cc))
      ]

  schedule_updated-Stepped :
      {store' : Store F} (i : String) (s e : ℤ) (at_time : String) (solver_status : Option String)
      → update_schedule i s e at_time solver_status store ≡ ok store'
      → Stepped k j store store'
  unfolding update_schedule
  schedule_updated-Stepped i s e at_time solver_status h = elim (Option-cases (row i store.rows)) [
    | inl n ↦ unchanged_store (ok_injective (rw (n, update_schedule) at h))
    | inr (current, q) ↦
        let (a, h1) =
          >>-eq-ok
            (protect_committed_and_terminal_state current scheduled _ (some s, some e) none none) _
            (rw (q, update_schedule) at h) in
        let accepted = protect-Accepted current scheduled _ (some s, some e) none none a in
        updated-Stepped i _ current (λ x. refl) q (ok_injective h1)
          (λ t same.
            moved none none
              (subst
                (λ (x : Job F).
                  Accepted x scheduled (placed_block s e current) (some s, some e) none none)
                same accepted)
              (λ t q. cc) (λ t q. cc))
  ]

  refusal_recorded-Stepped :
      {store' : Store F} (i reason at_time : String) (solver_status : Option String)
      → record_refusal i reason at_time solver_status store ≡ ok store'
      → Stepped k j store store'
  unfolding record_refusal
  refusal_recorded-Stepped i reason at_time solver_status h =
      elim (Option-cases (row i store.rows)) [
        | inl n ↦ unchanged_store (ok_injective (rw (n, record_refusal) at h))
        | inr (current, q) ↦
            let (a, h1) =
              >>-eq-ok (raise_if (is_terminal current.status) terminal_job) _
                (rw (q, record_refusal) at h) in
            let (b, h2) =
              >>-eq-ok (raise_if (is_committed_status current.status) committed_job) _ h1 in
            updated-Stepped i _ current (λ x. refl) q (ok_injective h2)
              (λ t same.
                refused
                  (subst (λ (x : Job F). is_terminal x.status ≡ false) same (raise_if-ok _ _ a))
                  (subst (λ (x : Job F). is_committed_status x.status ≡ false) same
                    (raise_if-ok _ _ b))
                  refl)
      ]

-- What a step does to a stored row.
pub Step-Stepped :
    {F : Type 0} (k : String) (j : Job F) (store : Store F) {store' : Store F}
    → row k store.rows ≡ some j
    → Step store store'
    → Stepped k j store store'
Step-Stepped k j store r (mutated ks plan rt e) = mutated-Stepped k j store r ks plan rt e
Step-Stepped k j store r (status_updated i st t b c e) =
    status_updated-Stepped k j store r i st t b c e
Step-Stepped k j store r (schedule_updated i s f t v e) =
    schedule_updated-Stepped k j store r i s f t v e
Step-Stepped k j store r (refusal_recorded i n t v e) =
    refusal_recorded-Stepped k j store r i n t v e
