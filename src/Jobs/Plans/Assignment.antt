-- ===== src/Jobs/Plans/Assignment.antt =====
-- What lifecycle.py's `plan_schedule_assignment` writes.
use pashupatastra_sih.Prelude.{
  ℤ, leb_ℤ, ◌≡◌, refl, ◌∙◌, ◌==◌, ap, String, true, false, Option, none, some, [], ◌∷◌, keep, any,
}
use pashupatastra_sih.Prelude.Dict.{get, put, get-put, get-pop}
use pashupatastra_sih.Result.{ok, >>=-ok, pass, terminal_job, committed_job}
use pashupatastra_sih.Contracts.{BlockCandidate, Value, null, num}
use pashupatastra_sih.Contracts
use pashupatastra_sih.Jobs.State.{
  Actor, JobStatus, get_value, committed_start_key, committed_end_key, proposal_run_id_key,
  proposal_run_id_of, schedule_assigned, as_job, reported, scheduled, Job, JobEvent, unchanged,
}
use pashupatastra_sih.Jobs.Guards.{
  schedule_of, is_terminal, is_committed_status, committed_state_problems,
  assert_committed_state_consistent, gate_release_transition, gate_execution_transition,
  required_kind,
}
use pashupatastra_sih.Jobs.Validation.{
  protect_committed_and_terminal_state, assert_placement_invariants, validate_mutation,
  validate_execution_events, validate_release_events, tokens_from, check_tokens,
}
use pashupatastra_sih.Jobs.Store.{Store, row, mutate_jobs}
use pashupatastra_sih.Jobs.Rows.{row-id}
use pashupatastra_sih.Jobs.Plans.Blocks.{with_placement}
use pashupatastra_sih.Jobs.Plans.Runs.{single-mutate}
use pashupatastra_sih.Jobs.Plans.Decisions.{lookup_self}
use pashupatastra_sih.Jobs.Events.{is_event_time, recorded-ok}
use pashupatastra_sih.Jobs.Plans.Human.{decision_event}
use pashupatastra_sih.Jobs.Plans.Written.{decided, Written, decided-Written}
use pashupatastra_sih.Jobs.Plans.Failure.{
  assignment_mutation, assignment_event, plan_schedule_assignment,
}

validate-assignment :
    {F : Type 0} (st : JobStatus) (j : Job F) (start_minute end_minute : ℤ) (at_time : String)
    → j.status ≡ st
    → is_terminal st ≡ false
    → is_committed_status st ≡ false
    → leb_ℤ end_minute start_minute ≡ false
    → validate_mutation j (assignment_mutation j start_minute end_minute at_time) ≡ ok tt
unfolding validate_mutation protect_committed_and_terminal_state assert_committed_state_consistent
    gate_execution_transition gate_release_transition required_kind committed_state_problems
    assert_placement_invariants assignment_mutation unchanged keep
validate-assignment reported j start_minute end_minute at_time s t c w = rw (s, w) refl
validate-assignment scheduled j start_minute end_minute at_time s t c w = rw (s, w) refl
validate-assignment _ j start_minute end_minute at_time s t c w = cc

assignment-written :
    {F : Type 0} (k : String) (j : Job F) (store : Store F) (start_minute end_minute : ℤ)
    (actor : Actor) (at_time : String)
    → (k == "") ≡ false
    → is_event_time at_time ≡ true
    → row k store.rows ≡ some j
    → is_terminal j.status ≡ false
    → is_committed_status j.status ≡ false
    → leb_ℤ end_minute start_minute ≡ false
    → mutate_jobs
        (k ∷ [])
        (plan_schedule_assignment k start_minute end_minute actor at_time)
        true
        store
      ≡ ok (
          decided k
            (assignment_mutation j start_minute end_minute at_time)
            (assignment_event k j start_minute end_minute actor at_time)
            store)
unfolding plan_schedule_assignment assignment_mutation assignment_event decision_event unchanged
    validate_execution_events validate_release_events tokens_from check_tokens any
assignment-written k j store start_minute end_minute actor at_time named timely r t c w =
    single-mutate k (plan_schedule_assignment k start_minute end_minute actor at_time) true store r
      t
      (>>=-ok _ (lookup_self k j) (
        pass terminal_job t (
          pass committed_job c (
            recorded-ok (assignment_mutation j start_minute end_minute at_time)
              (assignment_event k j start_minute end_minute actor at_time) named timely))))
      (row-id k store.rows r)
      (validate-assignment j.status j start_minute end_minute at_time refl t c w) refl refl

-- The job is scheduled at these minutes, in its row and in the metadata of its block, without a run
-- that proposed it and not committed.
pub record Assigned {F : Type 0} (start_minute end_minute : ℤ) (j' : Job F) : Type 0 where
  pub is_scheduled : j'.status ≡ scheduled
  pub same_window : schedule_of j' ≡ (some start_minute, some end_minute)
  pub no_refusal : j'.last_refusal_reason ≡ none
  pub block_status : j'.block_candidate.status ≡ Contracts.scheduled
  pub not_committed : j'.block_candidate.is_committed ≡ false
  pub block_start : get_value committed_start_key j'.block_candidate.metadata ≡ num start_minute
  pub block_end : get_value committed_end_key j'.block_candidate.metadata ≡ num end_minute
  pub no_run : proposal_run_id_of j' ≡ null

assignment-Assigned :
    {F : Type 0} (j : Job F) (start_minute end_minute : ℤ) (at_time : String)
    → Assigned start_minute end_minute
        (as_job (assignment_mutation j start_minute end_minute at_time) j)
unfolding assignment_mutation as_job unchanged with_placement
assignment-Assigned j start_minute end_minute at_time =
    let value_of : Option Value → Value = λ o. elim o [ none ↦ null | some v ↦ v ] in
    let d = put committed_start_key (num start_minute) j.block_candidate.metadata in
    let d' = put committed_end_key (num end_minute) d in
    record {
      is_scheduled = refl;
      same_window = refl;
      no_refusal = refl;
      block_status = refl;
      not_committed = refl;
      block_start = ap value_of (
          get-pop committed_start_key proposal_run_id_key d'
          ∙ get-put committed_start_key committed_end_key (num end_minute) d
          ∙ get-put committed_start_key committed_start_key (num start_minute)
              j.block_candidate.metadata);
      block_end = ap value_of (
          get-pop committed_end_key proposal_run_id_key d'
          ∙ get-put committed_end_key committed_end_key (num end_minute) d);
      no_run = ap value_of (get-pop proposal_run_id_key proposal_run_id_key d');
    }

-- A placement that is assigned directly, at a time in the events' format, to a job that is neither
-- completed nor committed, and whose end is after its start, is written and logged: the job is
-- scheduled at exactly these minutes, without a run and not committed, and no other row changes; the
-- event appended is an assignment by this actor at this time without a run, and names both minutes.
pub plan_schedule_assignment-succeeds :
    {F : Type 0} (k : String) (j : Job F) (store : Store F) (start_minute end_minute : ℤ)
    (actor : Actor) (at_time : String)
    → (k == "") ≡ false
    → is_event_time at_time ≡ true
    → row k store.rows ≡ some j
    → is_terminal j.status ≡ false
    → is_committed_status j.status ≡ false
    → leb_ℤ end_minute start_minute ≡ false
    → (after : Store F) × (j' : Job F) × (e : JobEvent) × (mutate_jobs
          (k ∷ [])
          (plan_schedule_assignment k start_minute end_minute actor at_time)
          true
          store
        ≡ ok after)
      × Written k j store schedule_assigned actor at_time none null after j' e
      × Assigned start_minute end_minute j'
      × (get_value "start_minute" e.metadata ≡ num start_minute)
      × (get_value "end_minute" e.metadata ≡ num end_minute)
unfolding assignment_mutation assignment_event decision_event as_job unchanged get
plan_schedule_assignment-succeeds k j store start_minute end_minute actor at_time named timely r t c
      w =
    let m = assignment_mutation j start_minute end_minute at_time in
    let e = assignment_event k j start_minute end_minute actor at_time in
    (
      decided k m e store,
      as_job m j,
      e,
      assignment-written k j store start_minute end_minute actor at_time named timely r t c w,
      decided-Written k j store schedule_assigned actor at_time none null e.metadata m r refl,
      assignment-Assigned j start_minute end_minute at_time,
      refl,
      refl,
    )
