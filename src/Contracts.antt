-- ===== src/Contracts.antt =====
-- contracts/schemas.py: the records that every subsystem exchanges. `F` is Python's `float`, which
-- only the scores use. Fields whose value no modelled code reads (the window type, descriptions,
-- the timetable) are left out.
use pashupatastra_sih.Prelude.{ℤ, String, Bool, Option, List, [], ◌∷◌, ◌==◌, ◌||◌, not, eqb_ℤ, pos}
use pashupatastra_sih.Prelude.Dict.{Dict}

pub data SolverStatus : Type 0 where
  optimal feasible infeasible no_solution : SolverStatus

pub data BlockStatus : Type 0 where
  planned scheduled committed affected unscheduled cancelled : BlockStatus

pub data DisruptionType : Type 0 where
  track_unavailable emergency_work possession_curtailment asset_breakdown : DisruptionType
  unsupported : String → DisruptionType

-- A JSON value inside a dict that is itself a value of a metadata dict. A float is kept as its
-- canonical JSON text, and so are a nested list and a nested dict.
pub data Scalar : Type 0 where
  missing : Scalar
  boolean : Bool → Scalar
  integer : ℤ → Scalar
  string : String → Scalar
  real : String → Scalar
  nested : String → Scalar

-- A JSON value of a metadata dict: `fields` is a dict and `entries` a list of dicts that the modelled
-- code looks into. Other lists and dicts, Booleans and floats are only passed on or tested for truth:
-- they are kept as their canonical JSON text.
pub data Value : Type 0 where
  null : Value
  num : ℤ → Value
  text : String → Value
  json : String → Value
  fields : Dict Scalar → Value
  entries : List (Dict Scalar) → Value

-- Python's truth value.
unfoldable pub truthy : Value → Bool
truthy null = Bool.false
truthy (num n) = not (eqb_ℤ n (pos 0))
truthy (text s) = not (s == "")
truthy (json s) = not (s == "[]" || s == "{}" || s == "false" || s == "0.0")
truthy (fields []) = Bool.false
truthy (fields (f ∷ fs)) = Bool.true
truthy (entries []) = Bool.false
truthy (entries (e ∷ es)) = Bool.true

pub record PossessionWindow : Type 0 where
  pub window_id : String
  pub track_id : String
  pub start_minute : ℤ
  pub end_minute : ℤ
  pub section_id : Option String

pub record BlockCandidate (F : Type 0) : Type 0 where
  pub block_id : String
  pub asset_id : String
  pub track_id : String
  pub work_type : String
  pub duration_minutes : ℤ
  pub section_id : Option String
  pub earliest_start_minute : ℤ
  pub latest_end_minute : ℤ
  pub priority_score : F
  pub risk_score : F
  pub dependencies : List String
  pub mutual_exclusion_group : Option String
  pub is_committed : Bool
  pub status : BlockStatus
  pub metadata : Dict Value

pub record ScheduledBlock (F : Type 0) : Type 0 where
  pub block_id : String
  pub track_id : String
  pub start_minute : ℤ
  pub end_minute : ℤ
  pub work_type : String
  pub section_id : Option String
  pub priority_score : F
  pub risk_score : F
  pub is_committed : Bool
  pub status : BlockStatus

pub record OptimizationRequest (F : Type 0) : Type 0 where
  pub corridor_id : String
  pub horizon_start : String
  pub horizon_minutes : ℤ
  pub tracks : List String
  pub candidates : List (BlockCandidate F)
  pub possession_windows : List PossessionWindow
  pub existing_committed_blocks : List (BlockCandidate F)
  pub min_headway_minutes : ℤ

pub record DisruptionEvent (F : Type 0) : Type 0 where
  pub disruption_id : String
  pub disruption_type : DisruptionType
  pub corridor_id : String
  pub track_id : Option String
  pub start_minute : ℤ
  pub end_minute : ℤ
  pub affected_asset_id : Option String
  pub new_candidate : Option (BlockCandidate F)

-- The texts that `solve` writes into `rejection_reasons`, with the ids that they quote.
pub data Reason : Type 0 where
  no_feasible_solution : Reason
  duration_does_not_fit : Reason
  no_possession_covers : String → Reason
  dependency_not_scheduled : String → Reason
  mutual_exclusion_conflict : String → Reason
  lower_objective_than : String → Reason
  capacity_trade_off : Reason

pub record OptimizationResult (F : Type 0) : Type 0 where
  pub corridor_id : String
  pub status : SolverStatus
  pub scheduled_blocks : List (ScheduledBlock F)
  pub unscheduled_blocks : List (BlockCandidate F)
  pub total_priority_scheduled : F
  pub total_risk_mitigated : F
  pub infeasibility_reasons : List Reason
  pub rejection_reasons : Dict Reason
