-- ===== src/Jobs/Plans/Runs.antt =====
-- A plan of one mutation and one event, run by repository.py's `mutate_jobs`.
use pashupatastra_sih.Prelude.{
  ◌≡◌, refl, ap, String, Bool, false, some, [], ◌∷◌, ◌++◌, ==_iff, ◌&&◌, arith, any,
}
use pashupatastra_sih.Result.{ok, raise_if, >>=-ok, >>-ok, terminal_job}
use pashupatastra_sih.Jobs.State.{Job, JobMutation, JobEvent, as_job}
use pashupatastra_sih.Jobs.Guards.{is_terminal}
use pashupatastra_sih.Jobs.Validation.{
  validate_mutation, validate_execution_events, validate_release_events,
}
use pashupatastra_sih.Prelude.Dict.{get, put}
use pashupatastra_sih.Jobs.Store.{Store, row, update, Plan, read_rows, write_mutations, mutate_jobs}

-- The plan's mutation is validated and written, and its event is appended to the log.
pub single-mutate :
    {F : Type 0} (k : String) (plan : Plan F) (reject_terminal : Bool) (store : Store F) {j : Job F}
    {m : JobMutation F} {e : JobEvent}
    → row k store.rows ≡ some j
    → is_terminal j.status ≡ false
    → plan ((k, j) ∷ []) ≡ ok (m ∷ [], e ∷ [])
    → m.job_id ≡ k
    → validate_mutation j m ≡ ok tt
    → validate_execution_events (m ∷ []) (e ∷ []) ≡ ok tt
    → validate_release_events (m ∷ []) (e ∷ []) ≡ ok tt
    → mutate_jobs (k ∷ []) plan reject_terminal store
      ≡ ok (record { rows = update k (as_job m) store.rows; events = store.events ++ (e ∷ []) })
unfolding mutate_jobs read_rows write_mutations put get any
single-mutate {F} k plan rt store {j} {m} {e} r t p i v x f =
    >>=-ok _ read (>>-ok (guard rt) (>>=-ok _ p (>>=-ok _ written (>>-ok x (>>-ok f refl)))))
  where
    read : read_rows store.rows [] (k ∷ []) ≡ ok ((k, j) ∷ [])
    read = rw (r, read_rows) refl

    guard :
        (b : Bool)
        → raise_if
            (b && any (λ (x : String × Job F). is_terminal x.1.status) ((k, j) ∷ []))
            terminal_job
          ≡ ok tt
    guard b = ground arith

    found : get m.job_id ((k, j) ∷ []) ≡ some j
    found = rw (i, (==_iff k k).1 refl) refl

    written :
        write_mutations ((k, j) ∷ []) (m ∷ []) store.rows ≡ ok (update k (as_job m) store.rows)
    written =
        rw (found, write_mutations) (>>-ok v (ap (λ x. ok (update x (as_job m) store.rows)) i))
