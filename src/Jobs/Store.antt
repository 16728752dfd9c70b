-- ===== src/Jobs/Store.antt =====
-- backend/app/jobs/repository.py: the write paths over the table of jobs and the event log, and
-- history.py's read of one job's events. A write
-- transaction that raises leaves both as they were, which is the error case of `Result`.
use pashupatastra_sih.Prelude.{
  ℤ, String, Bool, ◌&&◌, Option, none, some, List, [], ◌∷◌, ◌++◌, any, keep, ◌==◌, if◌then◌else◌,
}
use pashupatastra_sih.Prelude.Dict.{Dict, get, put}
use pashupatastra_sih.Result.{
  Result, ok, err, ◌>>=◌, ◌>>◌, raise_if, key_error, terminal_job, committed_job,
}
use pashupatastra_sih.Contracts.{BlockStatus, num}
use pashupatastra_sih.Contracts
use pashupatastra_sih.Jobs.State.{
  JobStatus, scheduled, Job, JobMutation, JobEvent, as_job, committed_start_key, committed_end_key,
}
use pashupatastra_sih.Jobs.Guards.{is_terminal, is_committed_status, schedule_of}
use pashupatastra_sih.Jobs.Validation.{
  protect_committed_and_terminal_state, assert_placement_invariants, validate_mutation,
  validate_execution_events, validate_release_events,
}

pub record Store (F : Type 0) : Type 0 where
  pub rows : List (Job F)
  pub events : List JobEvent

-- `SELECT * FROM maintenance_jobs WHERE job_id = ?`; `job_id` is the primary key.
unfoldable pub row : {F : Type 0} → String → List (Job F) → Option (Job F)
row k [] = none
row k (j ∷ js) = if j.job_id == k then some j else row k js

-- `UPDATE maintenance_jobs ... WHERE job_id = ?`
unfoldable pub update : {F : Type 0} → String → (Job F → Job F) → List (Job F) → List (Job F)
update k f [] = []
update k f (j ∷ js) = if j.job_id == k then f j ∷ update k f js else j ∷ update k f js

-- `JobHistoryRepository.list_for_job`
unfoldable pub list_for_job : String → List JobEvent → List JobEvent
list_for_job k events = keep (λ e. e.job_id == k) events

-- `Plan`: from the rows that were read to mutations and events, or an exception.
abbrev pub Plan : Type 0 → Type 0
Plan F = Dict (Job F) → Result (List (JobMutation F) × List JobEvent)

-- Step 1 of `mutate_jobs`: read every job.
unfoldable pub read_rows :
    {F : Type 0} → List (Job F) → Dict (Job F) → List String → Result (Dict (Job F))
read_rows table rows [] = ok rows
read_rows table rows (k ∷ ks) = elim (row k table) [
  | none ↦ err key_error
  | some j ↦ read_rows table (put k j rows) ks
]

-- Steps 4 and 5: validate each mutation against the row that was read, and write it.
unfoldable pub write_mutations :
    {F : Type 0} → Dict (Job F) → List (JobMutation F) → List (Job F) → Result (List (Job F))
write_mutations rows [] table = ok table
write_mutations rows (m ∷ ms) table = elim (get m.job_id rows) [
  | none ↦ err key_error
  | some current ↦
      validate_mutation current m >> write_mutations rows ms (update m.job_id (as_job m) table)
]

-- `mutate_jobs`. Every actor is an `Actor` here, and the ids of events, which SQLite requires to be
-- unique, are minted and left out.
unfoldable pub mutate_jobs : {F : Type 0} → List String → Plan F → Bool → Store F → Result (Store F)
mutate_jobs job_ids plan reject_terminal store = do
  rows ← read_rows store.rows [] job_ids
  raise_if (reject_terminal && any (λ r. is_terminal r.1.status) rows) terminal_job
  planned ← plan rows
  table ← write_mutations rows planned.0 store.rows
  validate_execution_events planned.0 planned.1
  validate_release_events planned.0 planned.1
  ok (record { rows = table; events = store.events ++ planned.1 })

-- `COALESCE(?, updated_at)`
abbrev coalesce : Option String → Option String → Option String
coalesce none old = old
coalesce (some t) old = some t

-- The block with its status and flag mirrored, where they are given.
abbrev pub mirrored :
    {F : Type 0}
    → Contracts.BlockCandidate F
    → Option BlockStatus
    → Option Bool
    → Contracts.BlockCandidate F
mirrored b st c = record b {
  status = elim st [ none ↦ b.status | some s ↦ s ];
  is_committed = elim c [ none ↦ b.is_committed | some x ↦ x ];
}

-- `update_status`, for a job that is there (it returns None otherwise and writes nothing).
unfoldable pub update_status :
    {F : Type 0}
    → String
    → JobStatus
    → Option String
    → Option BlockStatus
    → Option Bool
    → Store F
    → Result (Store F)
update_status job_id status updated_at block_status is_committed store =
    elim (row job_id store.rows) [
      | none ↦ ok store
      | some current ↦ do
        let block = mirrored current.block_candidate block_status is_committed
        protect_committed_and_terminal_state current status block (schedule_of current) none none
        assert_placement_invariants status (schedule_of current)
        ok (record store {
          rows =
              update job_id
                (λ j. record j {
                  status = status;
                  updated_at = coalesce updated_at j.updated_at;
                  block_candidate = block;
                })
                store.rows;
        })
    ]

-- The block that `update_schedule` mirrors the placement into.
abbrev pub placed_block : {F : Type 0} → ℤ → ℤ → Job F → Contracts.BlockCandidate F
placed_block start end j = record j.block_candidate {
  metadata =
      put committed_end_key (num end)
        (put committed_start_key (num start) j.block_candidate.metadata);
  status = Contracts.scheduled;
}

-- `update_schedule`, likewise.
unfoldable pub update_schedule :
    {F : Type 0} → String → ℤ → ℤ → String → Option String → Store F → Result (Store F)
update_schedule job_id start end updated_at solver_status store = elim (row job_id store.rows) [
  | none ↦ ok store
  | some current ↦ do
    let block = placed_block start end current
    protect_committed_and_terminal_state current scheduled block (some start, some end) none none
    ok (record store {
      rows =
          update job_id
            (λ j. record j {
              status = scheduled;
              schedule_start_minute = some start;
              schedule_end_minute = some end;
              updated_at = some updated_at;
              last_solver_status = solver_status;
              last_refusal_reason = none;
              block_candidate = block;
            })
            store.rows;
    })
]

-- `record_refusal`, likewise.
unfoldable pub record_refusal :
    {F : Type 0} → String → String → String → Option String → Store F → Result (Store F)
record_refusal job_id reason updated_at solver_status store = elim (row job_id store.rows) [
  | none ↦ ok store
  | some current ↦ do
    raise_if (is_terminal current.status) terminal_job
    raise_if (is_committed_status current.status) committed_job
    ok (record store {
      rows =
          update job_id
            (λ j. record j {
              updated_at = some updated_at;
              last_solver_status = solver_status;
              last_refusal_reason = some reason;
            })
            store.rows;
    })
]
