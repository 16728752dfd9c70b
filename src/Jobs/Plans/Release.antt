-- ===== src/Jobs/Plans/Release.antt =====
-- lifecycle.py's `plan_release`, run by repository.py's `mutate_jobs`, and the window that it leaves.
use pashupatastra_sih.Prelude.{
  ℤ, max_ℤ, false, ◌==◌, subst, ◌≡◌, refl, sym, String, true, some, [], ◌∷◌, keep, any, ==_iff,
}
use pashupatastra_sih.Prelude.Dict.{get, put}
use pashupatastra_sih.Result.{ok, ◌>>=◌, raise_if, >>=-ok, >>-ok, stale_proposal}
use pashupatastra_sih.Contracts.{text, num}
use pashupatastra_sih.Jobs.State.{
  Actor, notified, Job, JobEvent, as_job, block_released, released_run_id_key, get_value, unchanged,
  value_eq, proposal_run_id_of,
}
use pashupatastra_sih.Jobs.Guards.{is_consistent, schedule_of}
use pashupatastra_sih.Jobs.Validation.{
  fully_released, validate_execution_events, validate_release_events, tokens_from, check_tokens,
}
use pashupatastra_sih.Jobs.Store.{Store, row, mutate_jobs}
use pashupatastra_sih.Jobs.Rows.{row-id}
use pashupatastra_sih.Jobs.Plans.Blocks.{
  withdrawn, without_placement, raise_not_before, require_identified_human, require_nonblank,
}
use pashupatastra_sih.Jobs.Plans.Human.{
  reject_mutation, release_mutation, release_event, plan_release, release_plan, decision_event,
  is_stale,
}
use pashupatastra_sih.Jobs.Plans.Runs.{single-mutate}
use pashupatastra_sih.Jobs.Plans.Accepts.{validate-release, assert_consistent, released-fully}
use pashupatastra_sih.Jobs.Plans.Decisions.{lookup_self}
use pashupatastra_sih.Jobs.Events.{is_event_time, recorded-ok}
use pashupatastra_sih.Jobs.Plans.Written.{
  decided, Written, decided-Written, Unplaced, Between, no_run-without_placement,
}

-- The release token and the release event agree.
release-logged :
    {F : Type 0} (k run : String) (j : Job F) (actor : Actor) (at_time reason : String)
    (released_end horizon : ℤ)
    → j.job_id ≡ k
    → validate_release_events
        (release_mutation j at_time reason released_end horizon run ∷ [])
        (release_event k j actor at_time reason released_end horizon run ∷ [])
      ≡ ok tt
unfolding validate_release_events tokens_from check_tokens any keep put get release_mutation
    reject_mutation withdrawn unchanged release_event decision_event value_eq
release-logged k run j actor at_time reason released_end horizon h =
    rw ((==_iff k j.job_id).1 (sym h), (==_iff j.job_id k).1 h, (==_iff run run).1 refl) refl

release-written :
    {F : Type 0} (k run : String) (j : Job F) (store : Store F) (actor : Actor)
    (at_time reason : String) (released_end horizon : ℤ)
    → (k == "") ≡ false
    → is_event_time at_time ≡ true
    → row k store.rows ≡ some j
    → j.status ≡ notified
    → is_consistent j ≡ true
    → proposal_run_id_of j ≡ text run
    → j.schedule_end_minute ≡ some released_end
    → require_identified_human actor ≡ ok tt
    → require_nonblank run ≡ ok tt
    → require_nonblank reason ≡ ok tt
    → (plan_release k actor at_time reason run horizon >>= λ plan.
        mutate_jobs (k ∷ []) plan true store)
      ≡ ok (
          decided k
            (release_mutation j at_time reason released_end horizon run)
            (release_event k j actor at_time reason released_end horizon run)
            store)
unfolding plan_release release_plan value_eq release_mutation reject_mutation withdrawn unchanged
    validate_execution_events tokens_from check_tokens any release_event decision_event
release-written {F} k run j store actor at_time reason released_end horizon named timely r s w q e
      person b c =
    rw (b, c)
      (single-mutate k (release_plan k actor at_time reason run horizon) true store r (rw s refl)
        planned (row-id k store.rows r)
        (validate-release j at_time reason run released_end horizon s w q) refl
        (release-logged k run j actor at_time reason released_end horizon (row-id k store.rows r)))
  where
    same_run : raise_if (is_stale (some run) (proposal_run_id_of j)) stale_proposal ≡ ok tt
    same_run = rw (q, (==_iff run run).1 refl) refl

    planned :
        release_plan {F = F} k actor at_time reason run horizon ((k, j) ∷ [])
        ≡ ok (
          release_mutation j at_time reason released_end horizon run ∷ [],
          release_event k j actor at_time reason released_end horizon run ∷ [],
        )
    planned = >>=-ok _ (lookup_self k j) (
        >>-ok (assert_consistent j w) (
          >>-ok (rw s refl) (
            >>-ok person (
              >>-ok same_run (
                simp e (
                  recorded-ok (release_mutation j at_time reason released_end horizon run)
                    (release_event k j actor at_time reason released_end horizon run) named
                    timely))))))

-- An identified person's release of the approved block that they name succeeds, at a time in the
-- events' format: the job is reported without a placement or a run, with the reason recorded and its
-- commitment withdrawn completely, and no other row changes. The job's window starts at the later of
-- its earliest start and the end that the job was scheduled to, and ends at the later of its latest
-- end and the horizon. The event appended is a release of the run by this person at this time for
-- this reason, and names the run and the new start.
pub release-succeeds :
    {F : Type 0} (k run : String) (j : Job F) (store : Store F) (actor : Actor)
    (at_time reason : String) (released_end horizon : ℤ)
    → (k == "") ≡ false
    → is_event_time at_time ≡ true
    → row k store.rows ≡ some j
    → j.status ≡ notified
    → is_consistent j ≡ true
    → proposal_run_id_of j ≡ text run
    → j.schedule_end_minute ≡ some released_end
    → require_identified_human actor ≡ ok tt
    → require_nonblank run ≡ ok tt
    → require_nonblank reason ≡ ok tt
    → let earliest = max_ℤ j.block_candidate.earliest_start_minute released_end in
      (after : Store F) × (j' : Job F) × (e : JobEvent) × ((plan_release k actor at_time reason run
            horizon
          >>= λ plan. mutate_jobs (k ∷ []) plan true store)
        ≡ ok after)
      × Written k j store block_released actor at_time (some reason) (text run) after j' e
      × Unplaced reason j'
      × (fully_released j'.block_candidate (schedule_of j') ≡ true)
      × Between earliest (max_ℤ j.block_candidate.latest_end_minute horizon) j'
      × (get_value released_run_id_key e.metadata ≡ text run)
      × (get_value "not_before_minute" e.metadata ≡ num earliest)
unfolding release_mutation reject_mutation withdrawn without_placement raise_not_before
    release_event decision_event as_job unchanged get
release-succeeds k run j store actor at_time reason released_end horizon named timely r s w q e
      person b c =
    let m = release_mutation j at_time reason released_end horizon run in
    let made = release_event k j actor at_time reason released_end horizon run in
    (
      decided k m made store,
      as_job m j,
      made,
      release-written k run j store actor at_time reason released_end horizon named timely r s w q e
          person b c,
      subst
          (λ v.
            Written k j store block_released actor at_time (some reason) v (decided k m made store)
              (as_job m j) made)
          q
          (decided-Written k j store block_released actor at_time (some reason)
            (proposal_run_id_of j) made.metadata m r refl),
      record {
        is_reported = refl;
        no_window = refl;
        because = refl;
        block_status = refl;
        not_committed = refl;
        no_run = no_run-without_placement j.block_candidate;
      },
      released-fully j.block_candidate released_end horizon true,
      record { starts = refl; ends = refl },
      refl,
      refl,
    )
