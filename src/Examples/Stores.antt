-- ===== src/Examples/Stores.antt =====
-- A table of one job, and the theorems about the writes to it.
use pashupatastra_sih.Prelude.{
  Option, ℤ, pos, eqb_ℤ, ◌≡◌, refl, String, true, none, some, some_injective, ◌⊎◌, List, [], ◌∷◌,
  ◌++◌, keep, any, ◌==◌, Bool-cases, inl, inr, subst,
}
use pashupatastra_sih.Prelude.Dict.{get, put}
use pashupatastra_sih.Result.{ok}
use pashupatastra_sih.Contracts.{BlockCandidate, Value, text, num}
use pashupatastra_sih.Contracts
use pashupatastra_sih.Jobs.State.{
  worker, execution_started, ExecutionTransition, start, in_progress, scheduled, reported, notified,
  completed, Job, JobEvent, unchanged, as_job, value_eq,
}
use pashupatastra_sih.Jobs.Guards.{
  check_execution_token, named_execution, committed_state_problems,
  assert_committed_state_consistent, gate_execution_transition, gate_release_transition,
  required_kind,
}
use pashupatastra_sih.Jobs.Validation.{
  protect_committed_and_terminal_state, protect_committed, keeps_commitment,
  assert_placement_invariants, validate_mutation, validate_execution_events,
  validate_release_events, tokens_from, check_tokens,
}
use pashupatastra_sih.Jobs.Store.{
  Store, row, update, Plan, mutate_jobs, read_rows, write_mutations, record_refusal,
}
use pashupatastra_sih.Jobs.Protection.{IsWellFormed, AllWellFormed, mutate_jobs-AllWellFormed}
use pashupatastra_sih.Jobs.Steps.{Step, mutated, refusal_recorded}
use pashupatastra_sih.Jobs.History.{AllBacked}
use pashupatastra_sih.Jobs.Reachable.{
  Reaches, arrived, step, Reaches-AllBacked, Reaches-keeps_completed,
}
use pashupatastra_sih.Jobs.Commitments.{SameCommitment, Withdrawn, Step-commitment}
use pashupatastra_sih.Examples.Requests.{first_work}

-- A job as it is reported.
abbrev pub new_job : Job ℤ
new_job = record {
  job_id = "J1";
  track_id = "T1";
  work_type = "tamping";
  status = reported;
  schedule_start_minute = none;
  schedule_end_minute = none;
  updated_at = none;
  last_solver_status = none;
  last_refusal_reason = none;
  block_candidate = first_work;
}

abbrev pub store_of : Job ℤ → Store ℤ
store_of j = record { rows = j ∷ []; events = [] }

-- The job with its committed block, proposed by the run R1.
abbrev pub notified_job : Job ℤ
notified_job = record new_job {
  status = notified;
  schedule_start_minute = some (pos 30);
  schedule_end_minute = some (pos 90);
  block_candidate = record first_work {
    status = Contracts.committed;
    is_committed = true;
    metadata =
        ("committed_start_minute", num (pos 30))
        ∷ ("committed_end_minute", num (pos 90))
        ∷ ("proposal_run_id", text "R1")
        ∷ [];
  };
}

abbrev pub done_job : Job ℤ
done_job = record notified_job { status = completed }

-- A plan that writes a job back as it is.
abbrev pub touch : String → Plan ℤ
touch k rows = elim (get k rows) [ none ↦ ok ([], []) | some j ↦ ok (unchanged j ∷ [], []) ]

-- A store of one job has no other row.
only_row :
    (P : Job ℤ → Type 0) (j : Job ℤ)
    → P j
    → (k : String) (x : Job ℤ) → row k (j ∷ []) ≡ some x
    → P x
unfolding row
only_row P j p k x h = elim (Bool-cases (j.job_id == k)) [
  | inl t ↦ subst P (some_injective (rw (t, row) at h)) p
  | inr f ↦ cc (rw (f, row) at h)
]

notified-IsWellFormed : IsWellFormed notified_job
unfolding committed_state_problems get
notified-IsWellFormed = record { consistent = refl; placed = refl }

touched :
    mutate_jobs ("J1" ∷ []) (touch "J1") true (store_of notified_job) ≡ ok (store_of notified_job)
unfolding mutate_jobs read_rows write_mutations row update put get any keep unchanged as_job
    validate_mutation protect_committed_and_terminal_state assert_committed_state_consistent
    committed_state_problems gate_execution_transition gate_release_transition required_kind
    protect_committed keeps_commitment value_eq eqb_ℤ assert_placement_invariants
    validate_execution_events validate_release_events tokens_from check_tokens
touched = refl

mutate_jobs-AllWellFormed_example : AllWellFormed (store_of notified_job)
mutate_jobs-AllWellFormed_example =
    mutate_jobs-AllWellFormed ("J1" ∷ []) (touch "J1") true (store_of notified_job)
      (store_of notified_job) (only_row IsWellFormed notified_job notified-IsWellFormed) touched

-- The store after a refusal.
abbrev refused_store : Store ℤ
refused_store = store_of (record new_job {
  updated_at = some "t1";
  last_solver_status = some "optimal";
  last_refusal_reason = some "no capacity";
})

refusal-Step : Step (store_of new_job) refused_store
unfolding record_refusal row update
refusal-Step = refusal_recorded "J1" "no capacity" "t1" (some "optimal") refl

-- A plan that writes a job's new row, with its token and its event.
abbrev rewrite_as : Job ℤ → Option ExecutionTransition → List JobEvent → Plan ℤ
rewrite_as j token events rows = ok (record (unchanged j) { execution = token } ∷ [], events)

abbrev planned_job : Job ℤ
planned_job = record notified_job { status = scheduled; block_candidate = first_work }

abbrev running_job : Job ℤ
running_job = record notified_job {
  status = in_progress;
  block_candidate = record notified_job.block_candidate {
    metadata = ("execution_id", text "X1") ∷ notified_job.block_candidate.metadata;
  };
}

abbrev started_event : JobEvent
started_event = record {
  job_id = "J1";
  event_type = execution_started;
  actor = record { actor_id = "W1"; role = worker };
  occurred_at = "t3";
  reason = none;
  optimization_run_id = text "R1";
  before_state = none;
  after_state = none;
  metadata = ("execution_id", text "X1") ∷ [];
}

abbrev running_store : Store ℤ
running_store = record { rows = running_job ∷ []; events = started_event ∷ [] }

abbrev start_token : ExecutionTransition
start_token = record { kind = start; execution_id = "X1" }

replanned :
    mutate_jobs ("J1" ∷ []) (rewrite_as planned_job none []) true refused_store
    ≡ ok (store_of planned_job)
unfolding mutate_jobs read_rows write_mutations row update put get any keep unchanged as_job
    validate_mutation protect_committed_and_terminal_state assert_committed_state_consistent
    committed_state_problems gate_execution_transition gate_release_transition required_kind
    protect_committed keeps_commitment value_eq eqb_ℤ assert_placement_invariants
    validate_execution_events validate_release_events tokens_from check_tokens
replanned = refl

promised :
    mutate_jobs ("J1" ∷ []) (rewrite_as notified_job none []) true (store_of planned_job)
    ≡ ok (store_of notified_job)
unfolding mutate_jobs read_rows write_mutations row update put get any keep unchanged as_job
    validate_mutation protect_committed_and_terminal_state assert_committed_state_consistent
    committed_state_problems gate_execution_transition gate_release_transition required_kind
    protect_committed keeps_commitment value_eq eqb_ℤ assert_placement_invariants
    validate_execution_events validate_release_events tokens_from check_tokens
promised = refl

began :
    mutate_jobs
      ("J1" ∷ [])
      (rewrite_as running_job (some start_token) (started_event ∷ []))
      true
      (store_of notified_job)
    ≡ ok running_store
unfolding mutate_jobs read_rows write_mutations row update put get any keep unchanged as_job
    validate_mutation protect_committed_and_terminal_state assert_committed_state_consistent
    committed_state_problems gate_execution_transition gate_release_transition required_kind
    protect_committed keeps_commitment value_eq eqb_ℤ assert_placement_invariants
    validate_execution_events validate_release_events tokens_from check_tokens Contracts.truthy
    check_execution_token named_execution
began = refl

new-running : Reaches (store_of new_job) running_store
new-running = step (store_of new_job) refused_store running_store refusal-Step (
    step refused_store (store_of planned_job) running_store
      (mutated ("J1" ∷ []) (rewrite_as planned_job none []) true replanned)
      (step (store_of planned_job) (store_of notified_job) running_store
        (mutated ("J1" ∷ []) (rewrite_as notified_job none []) true promised)
        (step (store_of notified_job) running_store running_store
          (mutated ("J1" ∷ []) (rewrite_as running_job (some start_token) (started_event ∷ [])) true
            began)
          (arrived running_store))))

Reaches-AllBacked_example : AllBacked running_store
Reaches-AllBacked_example =
    Reaches-AllBacked (store_of new_job) running_store
      (only_row (λ j. j.status ≡ reported) new_job refl) new-running

idle :
    (s : Store ℤ)
    → mutate_jobs [] (λ rows. ok ([], [])) true s ≡ ok (record s { events = s.events ++ [] })
unfolding mutate_jobs read_rows any write_mutations validate_execution_events check_tokens
    tokens_from validate_release_events
idle s = refl

Reaches-keeps_completed_example : row "J1" (store_of done_job).rows ≡ some done_job
unfolding row
Reaches-keeps_completed_example =
    Reaches-keeps_completed (store_of done_job) (store_of done_job) "J1" done_job
      (step (store_of done_job) (store_of done_job) (store_of done_job)
        (mutated [] (λ rows. ok ([], [])) true (idle (store_of done_job)))
        (arrived (store_of done_job)))
      refl refl

Step-commitment_example :
    (j' : Job ℤ) × (new_events : List JobEvent) × (row "J1" running_store.rows ≡ some j')
    × (running_store.events ≡ [] ++ new_events)
    × (SameCommitment notified_job j' ⊎ Withdrawn "J1" notified_job j' new_events)
unfolding row
Step-commitment_example =
    Step-commitment "J1" notified_job (store_of notified_job) running_store
      (mutated ("J1" ∷ []) (rewrite_as running_job (some start_token) (started_event ∷ [])) true
        began)
      refl refl
