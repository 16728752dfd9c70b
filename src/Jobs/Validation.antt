-- ===== src/Jobs/Validation.antt =====
-- backend/app/jobs/lifecycle.py: the validation of one write, and the agreement between the tokens
-- of a plan's mutations and its events.
use pashupatastra_sih.Prelude.{
  String, Bool, true, false, not, ◌&&◌, ◌||◌, Option, none, some, is_some, List, [], ◌∷◌, keep, any,
  ◌==◌, if◌then◌else◌,
}
use pashupatastra_sih.Prelude.Dict.{Dict, get, contains, put}
use pashupatastra_sih.Result.{
  Result, ok, ◌>>◌, raise_if, terminal_job, committed_job, invalid_transition, execution_token,
  release_token,
}
use pashupatastra_sih.Contracts.{BlockCandidate, text, truthy}
use pashupatastra_sih.Jobs.State.{
  JobStatus, scheduled, Job, JobMutation, JobEvent, JobEventType, job_completed, execution_started,
  execution_completed, execution_not_completed, block_released, ExecutionTransitionKind, start,
  complete, not_completed, ExecutionTransition, AuthorityRelease, get_value, value_eq,
  committed_start_key, committed_end_key, proposal_run_id_key, execution_id_key,
  released_run_id_key,
}
use pashupatastra_sih.Jobs.Guards.{
  is_terminal, is_committed_status, allowed_transition, committed_target, is_reported,
  is_in_progress, block_is_committed, block_is_planned, Schedule, is_window, schedule_eq,
  committed_state_problems, is_empty, schedule_of, assert_committed_state_consistent,
  gate_execution_transition,
}

-- Lines 544-573: a release withdraws the commitment completely.
unfoldable pub fully_released : {F : Type 0} → BlockCandidate F → Schedule → Bool
fully_released block (s, e) =
    block_is_planned block.status
    && (not block.is_committed
        && (not (is_some s)
            && (not (is_some e)
                && (not (contains committed_start_key block.metadata)
                    && (not (contains committed_end_key block.metadata)
                        && (not (contains proposal_run_id_key block.metadata)
                            && not (contains execution_id_key block.metadata)))))))

-- `current_metadata.get(key) == new_metadata.get(key)`
abbrev pub same_value : {F : Type 0} → String → Job F → BlockCandidate F → Bool
same_value k current block =
    value_eq (get_value k current.block_candidate.metadata) (get_value k block.metadata)

-- Lines 577-608: every other move of a committed job keeps its commitment.
unfoldable pub keeps_commitment : {F : Type 0} → Job F → BlockCandidate F → Schedule → Bool
keeps_commitment current block schedule =
    block_is_committed block.status
    && (block.is_committed
        && (schedule_eq schedule (schedule_of current)
            && (same_value committed_start_key current block
                && (same_value committed_end_key current block
                    && (same_value proposal_run_id_key current block
                        && (if is_in_progress current.status
                            then same_value execution_id_key current block
                            else true))))))

-- Lines 534-608, for a committed job.
unfoldable pub protect_committed :
    {F : Type 0} → Job F → JobStatus → BlockCandidate F → Schedule → Result (Unit {0})
protect_committed current new_status block schedule = do
  raise_if (not (committed_target current.status new_status)) committed_job
  raise_if
      (not (
        if is_reported new_status
        then fully_released block schedule
        else keeps_commitment current block schedule))
      committed_job

-- `protect_committed_and_terminal_state`
unfoldable pub protect_committed_and_terminal_state :
    {F : Type 0}
    → Job F
    → JobStatus
    → BlockCandidate F
    → Schedule
    → Option ExecutionTransition
    → Option AuthorityRelease
    → Result (Unit {0})
protect_committed_and_terminal_state current new_status block schedule execution release = do
  raise_if (is_terminal current.status) terminal_job
  assert_committed_state_consistent (current ∷ [])
  raise_if (not (is_empty (committed_state_problems new_status block schedule))) committed_job
  gate_execution_transition current new_status block execution release
  (if is_committed_status current.status
      then protect_committed current new_status block schedule
      else ok tt)

abbrev pub is_scheduled : JobStatus → Bool
is_scheduled scheduled = true
is_scheduled _ = false

-- `assert_placement_invariants`
unfoldable pub assert_placement_invariants : JobStatus → Schedule → Result (Unit {0})
assert_placement_invariants status (s, e) = do
  raise_if (is_reported status && (is_some s || is_some e)) invalid_transition
  raise_if ((is_scheduled status || is_committed_status status) && not (is_window (s, e)))
      invalid_transition

abbrev pub new_schedule : {F : Type 0} → JobMutation F → Schedule
new_schedule m = (m.schedule_start_minute, m.schedule_end_minute)

-- `validate_mutation`
unfoldable pub validate_mutation : {F : Type 0} → Job F → JobMutation F → Result (Unit {0})
validate_mutation current m = do
  protect_committed_and_terminal_state current m.status m.block_candidate (new_schedule m)
      m.execution m.release
  raise_if (not (allowed_transition current.status m.status)) invalid_transition
  assert_placement_invariants m.status (new_schedule m)

-- `EXECUTION_EVENT_TYPES[kind] is event_type`
abbrev pub is_event_of : ExecutionTransitionKind → JobEventType → Bool
is_event_of start execution_started = true
is_event_of complete execution_completed = true
is_event_of not_completed execution_not_completed = true
is_event_of _ _ = false

abbrev pub is_execution_event : JobEventType → Bool
is_execution_event execution_started = true
is_execution_event execution_completed = true
is_execution_event execution_not_completed = true
is_execution_event _ = false

abbrev pub is_job_completed : JobEventType → Bool
is_job_completed job_completed = true
is_job_completed _ = false

abbrev pub is_execution_completed : JobEventType → Bool
is_execution_completed execution_completed = true
is_execution_completed _ = false

abbrev pub is_block_released : JobEventType → Bool
is_block_released block_released = true
is_block_released _ = false

-- `event.metadata.get(key) == expected`
abbrev pub names : String → String → JobEvent → Bool
names key expected e = value_eq (get_value key e.metadata) (text expected)

-- The dict comprehension `{m.job_id: token of m for m in mutations if it has one}`.
unfoldable pub tokens_from :
    {F T : Type 0} → (JobMutation F → Option T) → Dict T → List (JobMutation F) → Dict T
tokens_from token d [] = d
tokens_from token d (m ∷ ms) =
    tokens_from token (elim (token m) [ none ↦ d | some t ↦ put m.job_id t d ]) ms

abbrev pub execution_matches : String × ExecutionTransition → JobEvent → Bool
execution_matches (job_id, t) e =
    e.job_id == job_id
    && (is_event_of t.kind e.event_type && names execution_id_key t.execution_id e)

abbrev pub release_matches : String × AuthorityRelease → JobEvent → Bool
release_matches (job_id, t) e =
    e.job_id == job_id
    && (is_block_released e.event_type && names released_run_id_key t.proposal_run_id e)

abbrev pub is_single {ℓ} : {A : Type ℓ} → List A → Bool
is_single [] = false
is_single (x ∷ []) = true
is_single (x ∷ y ∷ xs) = false

-- `for job_id, token in tokens.items()`: each token has exactly one matching event.
unfoldable pub check_tokens :
    {T : Type 0} → (String × T → JobEvent → Bool) → List JobEvent → Dict T → Bool
check_tokens matches events [] = true
check_tokens matches events (t ∷ ts) =
    is_single (keep (matches t) events) && check_tokens matches events ts

-- Lines 860-884, for one event.
abbrev pub execution_event_backed : Dict ExecutionTransition → JobEvent → Bool
execution_event_backed tokens e =
    if not (is_execution_event e.event_type) then true else (elim (get e.job_id tokens) [
      | none ↦ false
      | some t ↦
          is_event_of t.kind e.event_type
          && (names execution_id_key t.execution_id e
              && not (
                  is_execution_completed e.event_type
                  && not (truthy (get_value "after_work_evidence" e.metadata))))
    ])

-- Lines 930-944, for one event.
abbrev pub release_event_backed : Dict AuthorityRelease → JobEvent → Bool
release_event_backed tokens e =
    if not (is_block_released e.event_type) then true else (elim (get e.job_id tokens) [
      | none ↦ false
      | some t ↦ names released_run_id_key t.proposal_run_id e
    ])

-- `validate_execution_events`
unfoldable pub validate_execution_events :
    {F : Type 0} → List (JobMutation F) → List JobEvent → Result (Unit {0})
validate_execution_events mutations events = do
  raise_if (any (λ e. is_job_completed e.event_type) events) execution_token
  let tokens = tokens_from (λ m. m.execution) [] mutations
  raise_if (not (check_tokens execution_matches events tokens)) execution_token
  raise_if (any (λ e. not (execution_event_backed tokens e)) events) execution_token

-- `validate_release_events`
unfoldable pub validate_release_events :
    {F : Type 0} → List (JobMutation F) → List JobEvent → Result (Unit {0})
validate_release_events mutations events = do
  let tokens = tokens_from (λ m. m.release) [] mutations
  raise_if (not (check_tokens release_matches events tokens)) release_token
  raise_if (any (λ e. not (release_event_backed tokens e)) events) release_token
