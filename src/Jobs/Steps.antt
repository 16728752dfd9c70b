-- ===== src/Jobs/Steps.antt =====
-- The writes to a stored job that are steps of the table: repository.py's `mutate_jobs`,
-- `update_status`, `update_schedule` and `record_refusal`, and what each may do to one row.
use pashupatastra_sih.Prelude.{ℤ, ◌≡◌, String, Bool, true, false, Option, some, List, ◌++◌, In}
use pashupatastra_sih.Result.{ok}
use pashupatastra_sih.Contracts.{BlockStatus, Value, text, truthy}
use pashupatastra_sih.Jobs.State.{
  JobStatus, Job, JobEvent, JobEventType, get_value, ExecutionTransition, AuthorityRelease,
  execution_id_key, released_run_id_key,
}
use pashupatastra_sih.Jobs.Guards.{is_terminal, is_committed_status, schedule_of}
use pashupatastra_sih.Jobs.Validation.{is_event_of, is_execution_completed, is_block_released}
use pashupatastra_sih.Jobs.Store.{
  Store, row, Plan, mutate_jobs, update_status, update_schedule, record_refusal,
}
use pashupatastra_sih.Jobs.Accepted.{Accepted}

-- One successful write.
pub data Step {F : Type 0} (store store' : Store F) : Type 0 where
  mutated :
      (ks : List String) (plan : Plan F) (reject_terminal : Bool)
      → mutate_jobs ks plan reject_terminal store ≡ ok store'
      → Step store store'
  status_updated :
      (k : String) (status : JobStatus) (at_time : Option String)
      (block_status : Option BlockStatus) (is_committed : Option Bool)
      → update_status k status at_time block_status is_committed store ≡ ok store'
      → Step store store'
  schedule_updated :
      (k : String) (s e : ℤ) (at_time : String) (solver_status : Option String)
      → update_schedule k s e at_time solver_status store ≡ ok store'
      → Step store store'
  refusal_recorded :
      (k reason at_time : String) (solver_status : Option String)
      → record_refusal k reason at_time solver_status store ≡ ok store'
      → Step store store'

-- The events have one of this type for the job, whose metadata has this value at this key.
pub record Logged (k : String) (is_type : JobEventType → Bool) (key : String) (v : Value)
    (events : List JobEvent) : Type 0 where
  pub event : JobEvent
  pub logged : In event events
  pub of_job : event.job_id ≡ k
  pub of_type : is_type event.event_type ≡ true
  pub names_it : get_value key event.metadata ≡ v
  pub evidence :
      is_execution_completed event.event_type ≡ true
      → truthy (get_value "after_work_evidence" event.metadata) ≡ true

-- What a write may do to a row: nothing, a refusal's columns, or an accepted move whose tokens have
-- their events among the new ones.
pub data Change {F : Type 0} (k : String) (j j' : Job F) (new_events : List JobEvent) : Type 0 where
  unmoved : j' ≡ j → Change k j j' new_events
  refused :
      is_terminal j.status ≡ false
      → is_committed_status j.status ≡ false
      → j'.status ≡ j.status
      → Change k j j' new_events
  moved :
      (execution : Option ExecutionTransition) (release : Option AuthorityRelease)
      → Accepted j j'.status j'.block_candidate (schedule_of j') execution release
      → ((t : ExecutionTransition)
          → execution ≡ some t
          → Logged k (is_event_of t.kind) execution_id_key (text t.execution_id) new_events)
      → ((t : AuthorityRelease)
          → release ≡ some t
          → Logged k is_block_released released_run_id_key (text t.proposal_run_id) new_events)
      → Change k j j' new_events

-- The row of a job after a step.
pub record Stepped {F : Type 0} (k : String) (j : Job F) (store store' : Store F) : Type 0 where
  pub after : Job F
  pub new_events : List JobEvent
  pub stored : row k store'.rows ≡ some after
  pub log : store'.events ≡ store.events ++ new_events
  pub change : Change k j after new_events
