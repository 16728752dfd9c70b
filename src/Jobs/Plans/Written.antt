-- ===== src/Jobs/Plans/Written.antt =====
-- A store after one mutation and one event of one job are written to it.
use pashupatastra_sih.Prelude.{
  ℤ, ◌≡◌, refl, ◌∙◌, ap, String, true, false, Option, none, some, [], ◌∷◌, ◌++◌, ==_iff, ◌==◌,
}
use pashupatastra_sih.Prelude.Dict.{Dict, pop, get-pop}
use pashupatastra_sih.Contracts.{BlockCandidate, Value, null}
use pashupatastra_sih.Contracts
use pashupatastra_sih.Jobs.State.{
  Actor, reported, notified, Job, JobMutation, JobEvent, JobEventType, as_job, get_value,
  proposal_run_id_key, execution_id_key, committed_start_key, committed_end_key, proposal_run_id_of,
  snapshot,
}
use pashupatastra_sih.Jobs.Guards.{schedule_of}
use pashupatastra_sih.Jobs.Store.{Store, row, update}
use pashupatastra_sih.Jobs.Rows.{row-update}
use pashupatastra_sih.Jobs.Plans.Blocks.{without_placement}
use pashupatastra_sih.Jobs.Plans.Human.{decision_event}

-- The store with one job's mutation written and one event appended.
abbrev pub decided : {F : Type 0} → String → JobMutation F → JobEvent → Store F → Store F
decided k m e store = record {
  rows = update k (as_job m) store.rows;
  events = store.events ++ (e ∷ []);
}

-- The row of one job is replaced, no other row is touched, and the log grows by one event: the event
-- names the job, the kind, the actor, the time, the reason and the run, and carries the states of
-- the job before and after.
pub record Written {F : Type 0} (k : String) (j : Job F) (store : Store F) (kind : JobEventType)
    (actor : Actor) (at_time : String) (reason : Option String) (run : Value) (after : Store F)
    (j' : Job F) (e : JobEvent) : Type 0 where
  pub stored : row k after.rows ≡ some j'
  pub others : (i : String) → (k == i) ≡ false → row i after.rows ≡ row i store.rows
  pub log : after.events ≡ store.events ++ (e ∷ [])
  pub of_job : e.job_id ≡ k
  pub of_kind : e.event_type ≡ kind
  pub decided_by : e.actor ≡ actor
  pub at_moment : e.occurred_at ≡ at_time
  pub because : e.reason ≡ reason
  pub of_run : e.optimization_run_id ≡ run
  pub from_state : e.before_state ≡ some (snapshot j)
  pub to_state : e.after_state ≡ some (snapshot j')
  pub same_id : j'.job_id ≡ j.job_id
  pub same_track : j'.track_id ≡ j.track_id
  pub updated : j'.updated_at ≡ some at_time

pub decided-Written :
    {F : Type 0} (k : String) (j : Job F) (store : Store F) (kind : JobEventType) (actor : Actor)
    (at_time : String) (reason : Option String) (run : Value) (metadata : Dict Value)
    (m : JobMutation F)
    → row k store.rows ≡ some j
    → m.updated_at ≡ some at_time
    → let e = record (decision_event kind k j m actor at_time reason metadata) {
      optimization_run_id = run;
    } in
      Written k j store kind actor at_time reason run (decided k m e store) (as_job m j) e
unfolding decision_event as_job
decided-Written k j store kind actor at_time reason run metadata m r u = record {
  stored = row-update k (as_job m) k store.rows (λ _. refl) ∙ rw ((==_iff k k).1 refl, r) refl;
  others = λ i n. row-update i (as_job m) k store.rows (λ _. refl) ∙ rw n refl;
  log = refl;
  of_job = refl;
  of_kind = refl;
  decided_by = refl;
  at_moment = refl;
  because = refl;
  of_run = refl;
  from_state = refl;
  to_state = refl;
  same_id = refl;
  same_track = refl;
  updated = u;
}

-- The job is committed at its placement, as the same run proposed it.
pub record Committed {F : Type 0} (j j' : Job F) : Type 0 where
  pub is_notified : j'.status ≡ notified
  pub same_window : schedule_of j' ≡ schedule_of j
  pub block_status : j'.block_candidate.status ≡ Contracts.committed
  pub is_committed : j'.block_candidate.is_committed ≡ true
  pub same_metadata : j'.block_candidate.metadata ≡ j.block_candidate.metadata

-- The job is reported without a placement, with the reason.
pub record Unplaced {F : Type 0} (reason : String) (j' : Job F) : Type 0 where
  pub is_reported : j'.status ≡ reported
  pub no_window : schedule_of j' ≡ (none, none)
  pub because : j'.last_refusal_reason ≡ some reason
  pub block_status : j'.block_candidate.status ≡ Contracts.planned
  pub not_committed : j'.block_candidate.is_committed ≡ false
  pub no_run : proposal_run_id_of j' ≡ null

-- The window in which the job may be placed again.
pub record Between {F : Type 0} (earliest latest : ℤ) (j' : Job F) : Type 0 where
  pub starts : j'.block_candidate.earliest_start_minute ≡ earliest
  pub ends : j'.block_candidate.latest_end_minute ≡ latest

pub no_run-without_placement :
    {F : Type 0} (b : BlockCandidate F)
    → get_value proposal_run_id_key (without_placement b).metadata ≡ null
unfolding without_placement
no_run-without_placement b =
    let d = pop committed_end_key (pop committed_start_key b.metadata) in
    ap (λ o. elim o [ none ↦ null | some v ↦ v ])
      (get-pop proposal_run_id_key execution_id_key (pop proposal_run_id_key d)
        ∙ get-pop proposal_run_id_key proposal_run_id_key d)
