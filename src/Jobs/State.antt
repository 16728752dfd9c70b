-- ===== src/Jobs/State.antt =====
-- The job rows, tokens, mutations and events of backend/app/jobs (models.py, events.py and
-- lifecycle.py) and the actors of backend/app/identity/actor.py. Job columns that no transition
-- reads or writes are left out, and so are an event's minted id, its schema version and the checks
-- on its timestamp. `None` and a missing key of a metadata dict are both read as `null`.
use pashupatastra_sih.Prelude.{
  ℤ, String, Bool, true, false, not, Option, none, some, ◌==◌, eqb_ℤ, list_eq, if◌then◌else◌,
}
use pashupatastra_sih.Prelude.Dict.{Dict, get}
use pashupatastra_sih.Contracts.{
  BlockCandidate, BlockStatus, Scalar, missing, boolean, integer, string, real, nested, Value, null,
  num, text, json, fields, entries,
}

pub data JobStatus : Type 0 where
  reported scheduled notified in_progress completed : JobStatus

pub data ActorRole : Type 0 where
  worker engineer authority admin system unidentified : ActorRole

pub data ActorKind : Type 0 where
  human system_kind : ActorKind

pub record Actor : Type 0 where
  pub actor_id : String
  pub role : ActorRole

-- `Actor.kind`, derived from the role.
abbrev pub kind_of : ActorRole → ActorKind
kind_of system = system_kind
kind_of worker = human
kind_of engineer = human
kind_of authority = human
kind_of admin = human
kind_of unidentified = human

pub data JobEventType : Type 0 where
  job_created job_scored optimization_requested optimization_completed : JobEventType
  optimization_failed block_proposed block_reproposed optimization_refused : JobEventType
  proposal_invalidated committed_block_preserved committed_block_conflict : JobEventType
  schedule_assigned block_committed job_completed proposal_rejected : JobEventType
  proposal_postponed transition_rejected execution_started execution_completed : JobEventType
  execution_not_completed block_released : JobEventType

pub data ExecutionTransitionKind : Type 0 where
  start complete not_completed : ExecutionTransitionKind

pub record ExecutionTransition : Type 0 where
  pub kind : ExecutionTransitionKind
  pub execution_id : String

pub record AuthorityRelease : Type 0 where
  pub proposal_run_id : String

-- A row of `maintenance_jobs`.
pub record Job (F : Type 0) : Type 0 where
  pub job_id : String
  pub track_id : String
  pub work_type : String
  pub status : JobStatus
  pub schedule_start_minute : Option ℤ
  pub schedule_end_minute : Option ℤ
  pub updated_at : Option String
  pub last_solver_status : Option String
  pub last_refusal_reason : Option String
  pub block_candidate : BlockCandidate F

pub record JobMutation (F : Type 0) : Type 0 where
  pub job_id : String
  pub status : JobStatus
  pub schedule_start_minute : Option ℤ
  pub schedule_end_minute : Option ℤ
  pub updated_at : Option String
  pub last_solver_status : Option String
  pub last_refusal_reason : Option String
  pub block_candidate : BlockCandidate F
  pub execution : Option ExecutionTransition
  pub release : Option AuthorityRelease

pub record JobStateSnapshot : Type 0 where
  pub status : JobStatus
  pub block_status : BlockStatus
  pub is_committed : Bool
  pub schedule_start_minute : Option ℤ
  pub schedule_end_minute : Option ℤ
  pub proposal_run_id : Value

pub record JobEvent : Type 0 where
  pub job_id : String
  pub event_type : JobEventType
  pub actor : Actor
  pub occurred_at : String
  pub reason : Option String
  pub optimization_run_id : Value
  pub before_state : Option JobStateSnapshot
  pub after_state : Option JobStateSnapshot
  pub metadata : Dict Value

-- `JobMutation.unchanged`
unfoldable pub unchanged : {F : Type 0} → Job F → JobMutation F
unchanged j = record {
  job_id = j.job_id;
  status = j.status;
  schedule_start_minute = j.schedule_start_minute;
  schedule_end_minute = j.schedule_end_minute;
  updated_at = j.updated_at;
  last_solver_status = j.last_solver_status;
  last_refusal_reason = j.last_refusal_reason;
  block_candidate = j.block_candidate;
  execution = none;
  release = none;
}

-- `JobMutation.as_job`, which is also what the UPDATE of `mutate_jobs` writes.
unfoldable pub as_job : {F : Type 0} → JobMutation F → Job F → Job F
as_job m j = record j {
  status = m.status;
  schedule_start_minute = m.schedule_start_minute;
  schedule_end_minute = m.schedule_end_minute;
  updated_at = m.updated_at;
  last_solver_status = m.last_solver_status;
  last_refusal_reason = m.last_refusal_reason;
  block_candidate = m.block_candidate;
}

-- `metadata.get(key)`
abbrev pub get_value : String → Dict Value → Value
get_value k d = elim (get k d) [ none ↦ null | some v ↦ v ]

abbrev pub scalar_eq : Scalar → Scalar → Bool
scalar_eq missing missing = true
scalar_eq (boolean true) (boolean b) = b
scalar_eq (boolean false) (boolean b) = not b
scalar_eq (integer m) (integer n) = eqb_ℤ m n
scalar_eq (string s) (string t) = s == t
scalar_eq (real s) (real t) = s == t
scalar_eq (nested s) (nested t) = s == t
scalar_eq a b = false

abbrev pub member_eq : String × Scalar → String × Scalar → Bool
member_eq (j, a) (k, b) = if j == k then scalar_eq a b else false

-- `a == b` of two metadata values; the keys of a dict stand in the order of its canonical JSON.
unfoldable pub value_eq : Value → Value → Bool
value_eq null null = true
value_eq (num m) (num n) = eqb_ℤ m n
value_eq (text s) (text t) = s == t
value_eq (json s) (json t) = s == t
value_eq (fields d) (fields e) = list_eq member_eq d e
value_eq (entries ds) (entries es) = list_eq (list_eq member_eq) ds es
value_eq a b = false

-- The keys of a block's metadata that the lifecycle owns.
abbrev pub committed_start_key : String
committed_start_key = "committed_start_minute"

abbrev pub committed_end_key : String
committed_end_key = "committed_end_minute"

abbrev pub proposal_run_id_key : String
proposal_run_id_key = "proposal_run_id"

abbrev pub execution_id_key : String
execution_id_key = "execution_id"

abbrev pub released_run_id_key : String
released_run_id_key = "released_proposal_run_id"

-- `proposal_run_id_of`
abbrev pub proposal_run_id_of : {F : Type 0} → Job F → Value
proposal_run_id_of j = get_value proposal_run_id_key j.block_candidate.metadata

-- `_execution_id_of`
abbrev pub execution_id_of : {F : Type 0} → Job F → Value
execution_id_of j = get_value execution_id_key j.block_candidate.metadata

-- `JobStateSnapshot.from_job`
unfoldable pub snapshot : {F : Type 0} → Job F → JobStateSnapshot
snapshot j = record {
  status = j.status;
  block_status = j.block_candidate.status;
  is_committed = j.block_candidate.is_committed;
  schedule_start_minute = j.schedule_start_minute;
  schedule_end_minute = j.schedule_end_minute;
  proposal_run_id = proposal_run_id_of j;
}
