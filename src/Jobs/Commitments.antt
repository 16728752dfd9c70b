-- ===== src/Jobs/Commitments.antt =====
-- How a commitment to the field ends (lifecycle.py, `protect_committed_and_terminal_state`).
use pashupatastra_sih.Prelude.{
  ◌≡◌, refl, sym, ap₂, subst, String, true, Option, some, List, ◌++◌, arith, ◌⊎◌, inl, inr,
  some_injective,
}
use pashupatastra_sih.Contracts.{BlockCandidate, text}
use pashupatastra_sih.Jobs.State.{
  JobStatus, notified, in_progress, Job, JobEvent, not_completed, ExecutionTransition,
  AuthorityRelease, get_value, committed_start_key, committed_end_key, released_run_id_key,
  execution_id_of, proposal_run_id_of,
}
use pashupatastra_sih.Jobs.Guards.{
  block_is_committed, is_committed_status, is_reported, Schedule, schedule_of, required_kind,
  named_execution,
}
use pashupatastra_sih.Jobs.Validation.{is_block_released, fully_released, keeps_commitment}
use pashupatastra_sih.Jobs.Store.{Store, row}
use pashupatastra_sih.Jobs.Values.{value_eq_sound}
use pashupatastra_sih.Jobs.Gates.{minute_eq_sound, gate-execution, gate-release}
use pashupatastra_sih.Jobs.Accepted.{Accepted}
use pashupatastra_sih.Jobs.Steps.{Step, Logged, Change, unmoved, refused, moved}
use pashupatastra_sih.Jobs.Effects.{Step-Stepped}
use pashupatastra_sih.Jobs.History.{HasEvent}

-- The block is committed.
abbrev pub IsCommittedBlock : {F : Type 0} → Job F → Type 0
IsCommittedBlock j =
    (block_is_committed j.block_candidate.status ≡ true) × (j.block_candidate.is_committed ≡ true)

-- The job keeps its commitment: its window, its proposal run, the window of its block, and a block
-- that is committed stays so.
pub record SameCommitment {F : Type 0} (j j' : Job F) : Type 0 where
  pub same_window : schedule_of j' ≡ schedule_of j
  pub same_run : proposal_run_id_of j' ≡ proposal_run_id_of j
  pub same_committed_start :
      get_value committed_start_key j'.block_candidate.metadata
      ≡ get_value committed_start_key j.block_candidate.metadata
  pub same_committed_end :
      get_value committed_end_key j'.block_candidate.metadata
      ≡ get_value committed_end_key j.block_candidate.metadata
  pub still_committed : IsCommittedBlock j → IsCommittedBlock j'

-- The event that withdraws the commitment of a job in this state.
abbrev pub WithdrawnBy : {F : Type 0} → String → Job F → JobStatus → List JobEvent → Type 0
WithdrawnBy k j notified events =
    Logged k is_block_released released_run_id_key (proposal_run_id_of j) events
WithdrawnBy k j in_progress events = HasEvent k not_completed (execution_id_of j) events
WithdrawnBy k j _ events = Unit {0}

-- The job is no longer committed: it is reported, its commitment is gone, and the log says why.
pub record Withdrawn {F : Type 0} (k : String) (j j' : Job F) (new_events : List JobEvent)
    : Type 0 where
  pub is_free : is_reported j'.status ≡ true
  pub is_released : fully_released j'.block_candidate (schedule_of j') ≡ true
  pub logged : WithdrawnBy k j j.status new_events

keeps-SameCommitment :
    {F : Type 0} (j j' : Job F)
    → keeps_commitment j j'.block_candidate (schedule_of j') ≡ true
    → SameCommitment j j'
unfolding keeps_commitment
keeps-SameCommitment {F} j j' h = record {
  same_window =
      ap₂ (λ x y. (x, y))
        (minute_eq_sound j'.schedule_start_minute j.schedule_start_minute (ground arith))
        (minute_eq_sound j'.schedule_end_minute j.schedule_end_minute (ground arith));
  same_run = sym (value_eq_sound (proposal_run_id_of j) (proposal_run_id_of j') (ground arith));
  same_committed_start = sym (
      value_eq_sound (get_value committed_start_key j.block_candidate.metadata)
        (get_value committed_start_key j'.block_candidate.metadata) (ground arith));
  same_committed_end = sym (
      value_eq_sound (get_value committed_end_key j.block_candidate.metadata)
        (get_value committed_end_key j'.block_candidate.metadata) (ground arith));
  still_committed = λ _. (ground arith, ground arith);
}

module _ {F : Type 0} (k : String) (j : Job F) (block : BlockCandidate F) (schedule : Schedule)
    (execution : Option ExecutionTransition) (release : Option AuthorityRelease)
    (new_events : List JobEvent)
    (reports : (t : ExecutionTransition)
      → execution ≡ some t
      → HasEvent k t.kind (text t.execution_id) new_events)
    (releases : (t : AuthorityRelease)
      → release ≡ some t
      → Logged k is_block_released released_run_id_key (text t.proposal_run_id) new_events) where
  withdrawn-logged :
      (st target : JobStatus)
      → j.status ≡ st
      → is_reported target ≡ true
      → Accepted j target block schedule execution release
      → WithdrawnBy k j st new_events
  unfolding required_kind named_execution
  withdrawn-logged notified target e r accepted =
      let (t, q, run) = gate-release j target block execution release accepted.gate e r in
      subst (λ v. Logged k is_block_released released_run_id_key v new_events) (sym run)
        (releases t q)
  withdrawn-logged in_progress target e r accepted =
      let (t, q, same, named) =
        gate-execution j target block execution release {kind = not_completed} accepted.gate
          (required target r) in
      subst (λ v. HasEvent k not_completed v new_events) (sym (some_injective named))
        (subst (λ x. HasEvent k x (text t.execution_id) new_events) same (reports t q))
    where
      required :
          (s : JobStatus) → is_reported s ≡ true → required_kind j.status s ≡ some not_completed
      required s p = rw e (ground arith)
  withdrawn-logged _ target e r accepted = tt

-- A write to a committed job either keeps its window, its proposal run, the committed window in its
-- block's metadata and, if its block is committed, that it is, or reports it with its commitment
-- withdrawn completely and adds the event that says so: a release naming its proposal run for a
-- notified job, a non-completion naming its execution for one that is in progress.
pub Step-commitment :
    {F : Type 0} (k : String) (j : Job F) (store store' : Store F)
    → Step store store'
    → row k store.rows ≡ some j
    → is_committed_status j.status ≡ true
    → (j' : Job F) × (new_events : List JobEvent) × (row k store'.rows ≡ some j')
      × (store'.events ≡ store.events ++ new_events)
      × (SameCommitment j j' ⊎ Withdrawn k j j' new_events)
Step-commitment {F} k j store store' w q c =
    let stepped = Step-Stepped k j store q w in
    (
      stepped.after,
      stepped.new_events,
      stepped.stored,
      stepped.log,
      ends stepped.after stepped.new_events stepped.change,
    )
  where
    kept : (j' : Job F) → j' ≡ j → SameCommitment j j'
    kept j' e = subst (SameCommitment j) (sym e) (record {
      same_window = refl;
      same_run = refl;
      same_committed_start = refl;
      same_committed_end = refl;
      still_committed = λ c. c;
    })

    ends :
        (j' : Job F) (new_events : List JobEvent)
        → Change k j j' new_events
        → SameCommitment j j' ⊎ Withdrawn k j j' new_events
    ends j' new_events (unmoved e) = inl (kept j' e)
    ends j' new_events (refused t f e) = cc
    ends j' new_events (moved execution release accepted reports releases) =
        elim (accepted.commitment c) [
          | inl (r, full) ↦ inr (record {
            is_free = r;
            is_released = full;
            logged =
                withdrawn-logged k j j'.block_candidate (schedule_of j') execution release
                  new_events reports releases j.status j'.status refl r accepted;
          })
          | inr (r, keeps) ↦ inl (keeps-SameCommitment j j' keeps)
        ]
