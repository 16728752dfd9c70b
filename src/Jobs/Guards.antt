-- ===== src/Jobs/Guards.antt =====
-- backend/app/jobs/lifecycle.py: the invariants that every write path must respect. The checks
-- stand in the source's order, and each failed check is the error that the source raises.
use pashupatastra_sih.Prelude.{
  ℤ, leb_ℤ, eqb_ℤ, Bool, true, false, not, ◌&&◌, Option, none, some, is_some, List, [], ◌∷◌, ◌++◌,
  keep, map, if◌then◌else◌,
}
use pashupatastra_sih.Prelude.Dict.{contains}
use pashupatastra_sih.Result.{
  Result, err, ◌>>◌, raise_if, committed_state_integrity, execution_token, release_token,
}
use pashupatastra_sih.Contracts.{
  BlockCandidate, BlockStatus, planned, committed, Value, text, truthy,
}
use pashupatastra_sih.Jobs.State.{
  JobStatus, reported, scheduled, notified, in_progress, completed, Job, ExecutionTransitionKind,
  start, complete, not_completed, ExecutionTransition, AuthorityRelease, get_value, value_eq,
  execution_id_key, proposal_run_id_of, execution_id_of,
}

-- `status in TERMINAL_STATUSES`
abbrev pub is_terminal : JobStatus → Bool
is_terminal completed = true
is_terminal _ = false

-- `status in COMMITTED_STATUSES`
abbrev pub is_committed_status : JobStatus → Bool
is_committed_status notified = true
is_committed_status in_progress = true
is_committed_status _ = false

-- `ALLOWED_TRANSITIONS`
abbrev pub allowed_transition : JobStatus → JobStatus → Bool
allowed_transition reported reported = true
allowed_transition reported scheduled = true
allowed_transition scheduled scheduled = true
allowed_transition scheduled reported = true
allowed_transition scheduled notified = true
allowed_transition notified notified = true
allowed_transition notified in_progress = true
allowed_transition notified reported = true
allowed_transition in_progress in_progress = true
allowed_transition in_progress completed = true
allowed_transition in_progress reported = true
allowed_transition _ _ = false

-- `new_status in _COMMITTED_TARGETS[status]`, for a committed status.
abbrev pub committed_target : JobStatus → JobStatus → Bool
committed_target notified notified = true
committed_target notified in_progress = true
committed_target notified reported = true
committed_target in_progress in_progress = true
committed_target in_progress completed = true
committed_target in_progress reported = true
committed_target _ _ = false

abbrev pub is_reported : JobStatus → Bool
is_reported reported = true
is_reported _ = false

abbrev pub is_notified : JobStatus → Bool
is_notified notified = true
is_notified _ = false

abbrev pub is_in_progress : JobStatus → Bool
is_in_progress in_progress = true
is_in_progress _ = false

abbrev pub block_is_committed : BlockStatus → Bool
block_is_committed committed = true
block_is_committed _ = false

abbrev pub block_is_planned : BlockStatus → Bool
block_is_planned planned = true
block_is_planned _ = false

-- `(schedule_start_minute, schedule_end_minute)`
abbrev pub Schedule : Type 0
Schedule = Option ℤ × Option ℤ

-- `start is not None and end is not None and end > start`
abbrev pub is_window : Schedule → Bool
is_window (none, _) = false
is_window (some s, none) = false
is_window (some s, some e) = not (leb_ℤ e s)

abbrev pub minute_eq : Option ℤ → Option ℤ → Bool
minute_eq none none = true
minute_eq none (some n) = false
minute_eq (some m) none = false
minute_eq (some m) (some n) = eqb_ℤ m n

abbrev pub schedule_eq : Schedule → Schedule → Bool
schedule_eq (a, b) (c, d) = minute_eq a c && minute_eq b d

pub data Problem : Type 0 where
  no_execution stray_execution block_not_committed flag_not_committed no_window : Problem

abbrev problem_if : Bool → Problem → List Problem
problem_if true p = p ∷ []
problem_if false p = []

-- `committed_state_problems`
unfoldable pub committed_state_problems :
    {F : Type 0} → JobStatus → BlockCandidate F → Schedule → List Problem
committed_state_problems status block schedule =
    if not (is_committed_status status)
    then []
    else problem_if
        (is_in_progress status && not (truthy (get_value execution_id_key block.metadata)))
        no_execution
      ++ (problem_if (is_notified status && contains execution_id_key block.metadata)
            stray_execution
          ++ (problem_if (not (block_is_committed block.status)) block_not_committed
              ++ (problem_if (not block.is_committed) flag_not_committed
                  ++ problem_if (not (is_window schedule)) no_window)))

abbrev pub is_empty {ℓ} : {A : Type ℓ} → List A → Bool
is_empty [] = true
is_empty (x ∷ xs) = false

abbrev pub schedule_of : {F : Type 0} → Job F → Schedule
schedule_of j = (j.schedule_start_minute, j.schedule_end_minute)

abbrev pub is_consistent : {F : Type 0} → Job F → Bool
is_consistent j = is_empty (committed_state_problems j.status j.block_candidate (schedule_of j))

-- `assert_committed_state_consistent`
unfoldable pub assert_committed_state_consistent : {F : Type 0} → List (Job F) → Result (Unit {0})
assert_committed_state_consistent jobs =
    let findings = keep (λ j. not (is_consistent j)) jobs in
    raise_if (not (is_empty findings)) (committed_state_integrity (map (λ j. j.job_id) findings))

-- `_gate_release_transition`
unfoldable pub gate_release_transition :
    {F : Type 0} → Job F → JobStatus → Option AuthorityRelease → Result (Unit {0})
gate_release_transition current new_status release =
    if not (is_notified current.status && is_reported new_status)
    then raise_if (is_some release) release_token
    else elim release [
      | none ↦ err release_token
      | some t ↦
          raise_if (not (value_eq (text t.proposal_run_id) (proposal_run_id_of current)))
            release_token
    ]

-- The token kind that a move requires, if it is an execution transition.
unfoldable pub required_kind : JobStatus → JobStatus → Option ExecutionTransitionKind
required_kind status new_status =
    if is_in_progress new_status && not (is_in_progress status)
    then some start
    else (if is_terminal new_status
        then some complete
        else (if is_reported new_status && is_in_progress status then some not_completed else none))

abbrev pub kind_eq : ExecutionTransitionKind → ExecutionTransitionKind → Bool
kind_eq start start = true
kind_eq complete complete = true
kind_eq not_completed not_completed = true
kind_eq _ _ = false

-- The execution that the block names: the new block's for a start, else the stored block's.
-- `none` where the move starts from the wrong status.
unfoldable pub named_execution :
    {F : Type 0} → ExecutionTransitionKind → Job F → BlockCandidate F → Option Value
named_execution start current new_block =
    if is_notified current.status
    then some (get_value execution_id_key new_block.metadata)
    else none
named_execution complete current new_block =
    if is_in_progress current.status then some (execution_id_of current) else none
named_execution not_completed current new_block = some (execution_id_of current)

-- Lines 701-736: the token of a move that requires one.
unfoldable pub check_execution_token :
    {F : Type 0}
    → Job F
    → BlockCandidate F
    → ExecutionTransitionKind
    → Option ExecutionTransition
    → Result (Unit {0})
check_execution_token current new_block required none = err execution_token
check_execution_token current new_block required (some t) =
    if not (kind_eq t.kind required)
    then err execution_token
    else elim (named_execution required current new_block) [
      | none ↦ err execution_token
      | some named ↦ raise_if (not (value_eq named (text t.execution_id))) execution_token
    ]

-- `_gate_execution_transition`
unfoldable pub gate_execution_transition :
    {F : Type 0}
    → Job F
    → JobStatus
    → BlockCandidate F
    → Option ExecutionTransition
    → Option AuthorityRelease
    → Result (Unit {0})
gate_execution_transition current new_status new_block execution release = do
  raise_if (is_some execution && is_some release) release_token
  gate_release_transition current new_status release
  elim (required_kind current.status new_status) [
    | none ↦ raise_if (is_some execution) execution_token
    | some required ↦ check_execution_token current new_block required execution
  ]
