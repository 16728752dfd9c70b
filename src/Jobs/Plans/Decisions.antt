-- ===== src/Jobs/Plans/Decisions.antt =====
-- The decisions of lifecycle.py (`plan_commit`, `plan_reject`, `plan_postpone`, `plan_release`),
-- run by repository.py's `mutate_jobs`.
use pashupatastra_sih.Prelude.{
  pos, max_ℤ, none, ltb_ℤ, leb_ℤ, ◌≡◌, refl, ◌∙◌, String, subst, ◌==◌, ℤ, true, false, not, ◌||◌,
  Option, some, is_some, [], ◌∷◌, any, ==_iff, arith,
}
use pashupatastra_sih.Prelude.Dict.{Dict, get, contains}
use pashupatastra_sih.Result.{
  Result, ok, ◌>>=◌, ◌>>◌, raise_if, >>=-ok, >>-ok, invalid_transition, stale_proposal,
}
use pashupatastra_sih.Contracts.{Value, text, num}
use pashupatastra_sih.Jobs.State.{
  Actor, scheduled, block_committed, proposal_rejected, proposal_postponed, get_value, Job,
  JobMutation, JobEvent, JobEventType, as_job, unchanged, value_eq, proposal_run_id_of,
  execution_id_key,
}
use pashupatastra_sih.Jobs.Guards.{is_terminal, is_window, schedule_of}
use pashupatastra_sih.Jobs.Validation.{
  validate_execution_events, validate_release_events, is_scheduled, tokens_from, check_tokens,
}
use pashupatastra_sih.Jobs.Store.{Store, row, mutate_jobs}
use pashupatastra_sih.Jobs.Rows.{row-id}
use pashupatastra_sih.Jobs.Plans.Blocks.{
  withdrawn, without_placement, committed_block, raise_not_before, minute_value,
  require_identified_human, require_nonblank, lookup,
}
use pashupatastra_sih.Jobs.Plans.Human.{
  commit_mutation, commit_event, plan_commit, reject_mutation, reject_event, plan_reject,
  postpone_mutation, postpone_event, plan_postpone, decision_event, has_proposal, is_stale,
}
use pashupatastra_sih.Jobs.Events.{is_event_time, recorded, recorded-ok}
use pashupatastra_sih.Jobs.Plans.Written.{
  decided, Written, decided-Written, Committed, Unplaced, Between, no_run-without_placement,
}
use pashupatastra_sih.Jobs.Plans.Runs.{single-mutate}
use pashupatastra_sih.Jobs.Plans.Accepts.{validate-commit, validate-reject, validate-postpone}

-- The state that a decision about a job starts from.
pub record Proposed {F : Type 0} (k run : String) (j : Job F) (store : Store F) : Type 0 where
  pub stored : row k store.rows ≡ some j
  pub is_proposed : j.status ≡ scheduled
  pub placed : is_window (schedule_of j) ≡ true
  pub of_run : proposal_run_id_of j ≡ text run

pub lookup_self : {F : Type 0} (k : String) (j : Job F) → lookup k ((k, j) ∷ []) ≡ ok j
unfolding get
lookup_self k j = rw ((==_iff k k).1 refl, lookup) refl

window-both :
    (s e : Option ℤ) → is_window (s, e) ≡ true → not (not (is_some s) || not (is_some e)) ≡ true
window-both s e h = ground arith

module _ {F : Type 0} (k run : String) (j : Job F) (store : Store F) (actor : Actor)
    (at_time : String) (p : Proposed k run j store)
    (person : require_identified_human actor ≡ ok tt) (named : (k == "") ≡ false)
    (timely : is_event_time at_time ≡ true) where
  -- The checks that every decision about a proposal makes pass.
  checked :
      {B : Type 0} {r : Result B}
      → (do
        raise_if (not (is_scheduled j.status)) invalid_transition
        require_identified_human actor
        raise_if (not (has_proposal j)) invalid_transition
        raise_if (is_stale (some run) (proposal_run_id_of j)) stale_proposal
        r)
        ≡ r
  unfolding value_eq
  checked = >>-ok (rw p.is_proposed refl) (
      >>-ok person (
        >>-ok (rw (window-both j.schedule_start_minute j.schedule_end_minute p.placed) refl)
          (>>-ok (rw (p.of_run, (==_iff run run).1 refl) refl) refl)))

  active : is_terminal j.status ≡ false
  active = rw p.is_proposed refl

  -- The event of a decision is made.
  made :
      (kind : JobEventType) (m : JobMutation F) (reason : Option String) (metadata : Dict Value)
      → recorded m (decision_event kind k j m actor at_time reason metadata)
        ≡ ok (m ∷ [], decision_event kind k j m actor at_time reason metadata ∷ [])
  unfolding decision_event
  made kind m reason metadata =
      recorded-ok m (decision_event kind k j m actor at_time reason metadata) named timely

  -- What is written, of an event that a decision of this actor makes.
  written :
      (kind : JobEventType) (m : JobMutation F) (reason : Option String) (metadata : Dict Value)
      → m.updated_at ≡ some at_time
      → let e = decision_event kind k j m actor at_time reason metadata in
        Written k j store kind actor at_time reason (text run) (decided k m e store) (as_job m j) e
  unfolding decision_event
  written kind m reason metadata u =
      subst
        (λ v.
          let e = decision_event kind k j m actor at_time reason metadata in
          Written k j store kind actor at_time reason v (decided k m e store) (as_job m j) e)
        p.of_run
        (decided-Written k j store kind actor at_time reason (proposal_run_id_of j) metadata m
          p.stored u)

  -- An identified person's decision to commit the proposal that was reviewed succeeds.
  commit-written :
      contains execution_id_key j.block_candidate.metadata ≡ false
      → mutate_jobs (k ∷ []) (plan_commit k actor at_time (some run)) true store
        ≡ ok (
            decided k (commit_mutation j at_time) (commit_event k j actor at_time (some run)) store)
  unfolding plan_commit commit_mutation commit_event decision_event unchanged
      validate_execution_events validate_release_events tokens_from check_tokens any
  commit-written n =
      single-mutate k (plan_commit k actor at_time (some run)) true store p.stored active
        (>>=-ok _ (lookup_self k j) (
          checked
          ∙ recorded-ok (commit_mutation j at_time) (commit_event k j actor at_time (some run))
              named timely))
        (row-id k store.rows p.stored) (validate-commit j at_time p.is_proposed p.placed n) refl
        refl

  -- An identified person's decision to commit the proposal that was reviewed succeeds, at a time in
  -- the events' format, where the proposed job's block carries no execution. The job is notified at
  -- its window, its block is committed with its metadata as it was, and no other row changes; the
  -- event appended is a commitment of the run by this person at this time.
  pub commit-succeeds :
      contains execution_id_key j.block_candidate.metadata ≡ false
      → (after : Store F) × (j' : Job F) × (e : JobEvent) × (mutate_jobs
            (k ∷ [])
            (plan_commit k actor at_time (some run))
            true
            store
          ≡ ok after)
        × Written k j store block_committed actor at_time none (text run) after j' e
        × Committed j j'
  unfolding commit_mutation committed_block commit_event as_job unchanged
  commit-succeeds n = (
    decided k (commit_mutation j at_time) (commit_event k j actor at_time (some run)) store,
    as_job (commit_mutation j at_time) j,
    commit_event k j actor at_time (some run),
    commit-written n,
    written block_committed (commit_mutation j at_time) none
        (("transition", text "notify")
          ∷ ("start_minute", minute_value j.schedule_start_minute)
          ∷ ("end_minute", minute_value j.schedule_end_minute)
          ∷ ("expected_proposal_run_id", text run)
          ∷ [])
        refl,
    record {
      is_notified = refl;
      same_window = refl;
      block_status = refl;
      is_committed = refl;
      same_metadata = refl;
    },
  )

  reject-written :
      (reason : String)
      → require_nonblank run ≡ ok tt
      → require_nonblank reason ≡ ok tt
      → (plan_reject k actor at_time reason run >>= λ plan. mutate_jobs (k ∷ []) plan true store)
        ≡ ok (
            decided k
              (reject_mutation j at_time reason)
              (reject_event k j actor at_time reason run)
              store)
  unfolding plan_reject reject_mutation withdrawn reject_event decision_event unchanged
      validate_execution_events validate_release_events tokens_from check_tokens any
  reject-written reason b c =
      rw (b, c)
        (single-mutate k _ true store p.stored active
          (>>=-ok _ (lookup_self k j) (
            checked
            ∙ recorded-ok (reject_mutation j at_time reason)
                (reject_event k j actor at_time reason run) named timely))
          (row-id k store.rows p.stored) (validate-reject j at_time reason p.is_proposed) refl refl)

  -- A withdrawn job is unplaced.
  withdrawn-Unplaced :
      (reason : String) → Unplaced reason (as_job (reject_mutation j at_time reason) j)
  unfolding reject_mutation withdrawn without_placement as_job unchanged
  withdrawn-Unplaced reason = record {
    is_reported = refl;
    no_window = refl;
    because = refl;
    block_status = refl;
    not_committed = refl;
    no_run = no_run-without_placement j.block_candidate;
  }

  -- An identified person's decision to reject the proposal that was reviewed succeeds, at a time in
  -- the events' format: the job is reported without a placement or a run, with the reason recorded and
  -- its window as it was, and no other row changes; the event appended is a rejection of the run by
  -- this person at this time for this reason.
  pub reject-succeeds :
      (reason : String)
      → require_nonblank run ≡ ok tt
      → require_nonblank reason ≡ ok tt
      → (after : Store F) × (j' : Job F) × (e : JobEvent) × ((plan_reject k actor at_time reason run
            >>= λ plan. mutate_jobs (k ∷ []) plan true store)
          ≡ ok after)
        × Written k j store proposal_rejected actor at_time (some reason) (text run) after j' e
        × Unplaced reason j'
        × Between j.block_candidate.earliest_start_minute j.block_candidate.latest_end_minute j'
  unfolding reject_mutation withdrawn without_placement reject_event as_job unchanged
  reject-succeeds reason b c = (
    decided k (reject_mutation j at_time reason) (reject_event k j actor at_time reason run) store,
    as_job (reject_mutation j at_time reason) j,
    reject_event k j actor at_time reason run,
    reject-written reason b c,
    written proposal_rejected (reject_mutation j at_time reason) (some reason)
        (("transition", text "reject")
          ∷ ("rejected_start_minute", minute_value j.schedule_start_minute)
          ∷ ("rejected_end_minute", minute_value j.schedule_end_minute)
          ∷ ("expected_proposal_run_id", text run)
          ∷ [])
        refl,
    withdrawn-Unplaced reason,
    record { starts = refl; ends = refl },
  )

  postpone-written :
      (reason selected_date : String) (not_before horizon : ℤ) (digest : Option String)
      → require_nonblank run ≡ ok tt
      → require_nonblank reason ≡ ok tt
      → (ltb_ℤ not_before (pos 0) || leb_ℤ horizon not_before) ≡ false
      → (plan_postpone k actor at_time reason selected_date not_before horizon run digest
          >>= λ plan. mutate_jobs (k ∷ []) plan true store)
        ≡ ok (
            decided k
              (postpone_mutation j at_time reason not_before horizon)
              (postpone_event k j actor at_time reason selected_date not_before horizon run digest)
              store)
  unfolding plan_postpone postpone_mutation reject_mutation withdrawn postpone_event decision_event
      unchanged validate_execution_events validate_release_events tokens_from check_tokens any
  postpone-written reason selected_date not_before horizon digest b c h =
      rw (b, c)
        (single-mutate k _ true store p.stored active
          (>>=-ok _ (lookup_self k j) (
            checked
            ∙ >>-ok (rw h refl) (
                recorded-ok (postpone_mutation j at_time reason not_before horizon)
                  (postpone_event k j actor at_time reason selected_date not_before horizon run
                    digest)
                  named timely)))
          (row-id k store.rows p.stored)
          (validate-postpone j at_time reason not_before horizon p.is_proposed) refl refl)

  -- An identified person's decision to postpone the proposal that was reviewed to a minute inside
  -- the horizon succeeds, at a time in the events' format: the job is reported without a placement or
  -- a run, with the reason recorded; the minute is its earliest start, its latest end is the later of
  -- its own and the horizon, and no other row changes. The event appended is a postponement of the
  -- run by this person at this time for this reason, and names the minute.
  pub postpone-succeeds :
      (reason selected_date : String) (not_before horizon : ℤ) (digest : Option String)
      → require_nonblank run ≡ ok tt
      → require_nonblank reason ≡ ok tt
      → (ltb_ℤ not_before (pos 0) || leb_ℤ horizon not_before) ≡ false
      → (after : Store F) × (j' : Job F) × (e : JobEvent) × ((plan_postpone k actor at_time reason
              selected_date not_before horizon run digest
            >>= λ plan. mutate_jobs (k ∷ []) plan true store)
          ≡ ok after)
        × Written k j store proposal_postponed actor at_time (some reason) (text run) after j' e
        × Unplaced reason j'
        × Between not_before (max_ℤ j.block_candidate.latest_end_minute horizon) j'
        × (get_value "not_before_minute" e.metadata ≡ num not_before)
  unfolding postpone_mutation reject_mutation withdrawn without_placement raise_not_before
      postpone_event decision_event as_job unchanged get
  postpone-succeeds reason selected_date not_before horizon digest b c h = (
    decided k (postpone_mutation j at_time reason not_before horizon)
        (postpone_event k j actor at_time reason selected_date not_before horizon run digest) store,
    as_job (postpone_mutation j at_time reason not_before horizon) j,
    postpone_event k j actor at_time reason selected_date not_before horizon run digest,
    postpone-written reason selected_date not_before horizon digest b c h,
    written proposal_postponed (postpone_mutation j at_time reason not_before horizon) (some reason)
        (postpone_event k j actor at_time reason selected_date not_before horizon run
          digest).metadata
        refl,
    record {
      is_reported = refl;
      no_window = refl;
      because = refl;
      block_status = refl;
      not_committed = refl;
      no_run = no_run-without_placement j.block_candidate;
    },
    record { starts = refl; ends = refl },
    refl,
  )
