-- ===== src/Jobs/Plans/Outcome.antt =====
-- backend/app/jobs/lifecycle.py: the plans over all the jobs that one optimization considered,
-- `plan_optimization_outcome` and `plan_optimization_failure`.
use pashupatastra_sih.Prelude.{
  pos, String, Bool, true, false, not, ◌&&◌, Option, none, some, is_some, List, [], ◌∷◌, ◌++◌,
  length, if◌then◌else◌,
}
use pashupatastra_sih.Prelude.Dict.{Dict, get}
use pashupatastra_sih.Result.{
  Result, ok, err, ◌>>=◌, ◌>>◌, raise_if, value_error, concurrent_modification,
}
use pashupatastra_sih.Contracts.{Value, num, text}
use pashupatastra_sih.Jobs.State.{
  JobStatus, reported, scheduled, notified, in_progress, completed, Job, JobMutation, JobEvent,
  optimization_completed, snapshot,
}
use pashupatastra_sih.Jobs.Events.{make_event}
use pashupatastra_sih.Jobs.Store.{Plan}
use pashupatastra_sih.Jobs.Plans.Blocks.{merge, lookup}
use pashupatastra_sih.Jobs.Plans.Optimization.{
  OptimizationAttempt, Placement, requested_event, base_mutation, optimizer_event, plan_placement,
  plan_refusal,
}

abbrev pub status_eq : JobStatus → JobStatus → Bool
status_eq reported reported = true
status_eq scheduled scheduled = true
status_eq notified notified = true
status_eq in_progress in_progress = true
status_eq completed completed = true
status_eq _ _ = false

-- `expected_statuses is not None and expected_statuses.get(job_id) != status`
abbrev pub status_changed : Option (Dict JobStatus) → String → JobStatus → Bool
status_changed none job_id status = false
status_changed (some d) job_id status = elim (get job_id d) [
  | none ↦ true
  | some s ↦ not (status_eq s status)
]

-- The arguments of `plan_optimization_outcome`.
pub record Outcome : Type 0 where
  pub attempt : OptimizationAttempt
  pub completed_at : String
  pub solver_status : String
  pub placements : Dict Placement
  pub refusals : Dict String
  pub expected_statuses : Option (Dict JobStatus)
  pub record_history : Bool
  pub explanations : Option (Dict (Dict Value))

abbrev pub explanation_of : Outcome → String → Option (Dict Value)
explanation_of o job_id = elim o.explanations [ none ↦ none | some d ↦ get job_id d ]

-- The mutation and the event of one job's outcome.
unfoldable pub outcome_of :
    {F : Type 0} → Outcome → String → Job F → Result (JobMutation F × JobEvent)
outcome_of o job_id job =
    let base = base_mutation job o.completed_at o.solver_status in
    elim (get job_id o.placements) [
      | some p ↦
          plan_placement job base p o.attempt o.completed_at o.solver_status
            (explanation_of o job_id)
      | none ↦ elim (get job_id o.refusals) [
        | some reason ↦ ok (plan_refusal job base reason o.attempt o.completed_at o.solver_status)
        | none ↦ err value_error
      ]
    ]

abbrev pub counts : Outcome → List String → Dict Value
counts o job_ids =
    ("considered", num (pos (length job_ids)))
    ∷ ("scheduled", num (pos (length o.placements)))
    ∷ ("unscheduled", num (pos (length o.refusals)))
    ∷ []

-- The events of one job's outcome.
unfoldable pub outcome_events :
    {F : Type 0} → Outcome → List String → Job F → JobEvent → Result (List JobEvent)
outcome_events o job_ids job event = if not o.record_history then ok [] else (do
  requested ← requested_event job o.attempt
  finished ← make_event (
      optimizer_event optimization_completed job (snapshot job) o.attempt o.completed_at none
        (merge (("solver_status", text o.solver_status) ∷ []) (counts o job_ids)))
  ok (requested ∷ finished ∷ event ∷ []))

-- The loop of `plan_optimization_outcome` over the jobs.
unfoldable pub plan_outcomes :
    {F : Type 0}
    → Outcome
    → List String
    → Dict (Job F)
    → List String
    → Result (List (JobMutation F) × List JobEvent)
plan_outcomes o job_ids rows [] = ok ([], [])
plan_outcomes o job_ids rows (k ∷ ks) = do
  job ← lookup k rows
  raise_if (status_changed o.expected_statuses k job.status) concurrent_modification
  planned ← outcome_of o k job
  event ← make_event planned.1
  events ← outcome_events o job_ids job event
  rest ← plan_outcomes o job_ids rows ks
  ok (planned.0 ∷ rest.0, events ++ rest.1)

-- `plan_optimization_outcome`
unfoldable pub plan_optimization_outcome : {F : Type 0} → List String → Outcome → Result (Plan F)
plan_optimization_outcome job_ids o = do
  raise_if (o.record_history && not (is_some o.attempt.requester)) value_error
  ok (λ rows. plan_outcomes o job_ids rows job_ids)
