-- ===== src/Jobs/SlaPolicy.antt =====
-- backend/app/jobs/sla_policy.py. A `timedelta` is its microseconds.
pub mod Ladder
use Prim.Native.Char.{Char, code}
use Prim.Native.String.{String, [] as empty_text, ◌∷◌ as text_cons}
use pashupatastra_sih.Prelude.{
  ℕ, suc, ℤ, pos, ◌+ℤ◌, ◌-ℤ◌, max_ℤ, ltb_ℤ, leb_ℤ, leb, ltb, Bool, true, false, not, ◌&&◌, ◌||◌,
  Option, none, some, List, [], ◌∷◌, length, if◌then◌else◌, ◌==◌, any,
}
use pashupatastra_sih.Prelude.Blank.{is_blank}
use pashupatastra_sih.Prelude.Dict.{Dict, get, contains}
use pashupatastra_sih.Result.{Result, ok, err, ◌>>=◌, ◌>>◌, raise_if, invalid_sla_policy, key_error}
use pashupatastra_sih.Contracts.{Value, null, num, text}
use pashupatastra_sih.Python.{Datetime, Durations}
use pashupatastra_sih.Data.HorizonAnchor.{Aware, aware}
use pashupatastra_sih.Jobs.State.{Job, get_value}

-- `ASSUMED_VERSION_MARKER`, `MAX_ESCALATION_STEPS`
abbrev pub assumed_version_marker : String
assumed_version_marker = "assumed"

abbrev pub max_escalation_steps : ℕ
max_escalation_steps = 3

unfoldable pub starts_with : String → String → Bool
starts_with empty_text s = true
starts_with (text_cons p prefix) empty_text = false
starts_with (text_cons p prefix) (text_cons c s) =
    (leb (code p) (code c) && leb (code c) (code p)) && starts_with prefix s

-- `part in s`
unfoldable pub occurs_in : String → String → Bool
occurs_in part empty_text = starts_with part empty_text
occurs_in part (text_cons c s) = starts_with part (text_cons c s) || occurs_in part s

pub record SlaTiming : Type 0 where
  pub started_at : ℤ
  pub evaluated_at : ℤ
  pub sla : ℤ
  pub due_at : ℤ
  pub due_soon_at : ℤ
  pub elapsed : ℤ
  pub escalation_level : ℕ

-- `is_due_soon` and `is_past_due`
abbrev pub is_due_soon : SlaTiming → Bool
is_due_soon t = leb_ℤ t.due_soon_at t.evaluated_at

abbrev pub is_past_due : SlaTiming → Bool
is_past_due t = leb_ℤ t.due_at t.evaluated_at

pub record SlaPolicy (F : Type 0) : Type 0 where
  pub version : String
  pub approval_sla : ℤ
  pub execution_start_sla : ℤ
  pub completion_sla : ℤ
  pub due_soon_fraction : F
  pub escalation_multipliers : List F
  pub assumed : Bool

-- `list(steps) == sorted(set(steps))`, of floats that are numbers.
unfoldable pub increasing : {F : Type 0} → Durations F → List F → Bool
increasing D [] = true
increasing D (x ∷ []) = true
increasing D (x ∷ y ∷ xs) = D.lt x y && increasing D (y ∷ xs)

-- The first step is before the deadline.
abbrev pub starts_early : {F : Type 0} → Durations F → List F → Bool
starts_early D [] = true
starts_early D (x ∷ xs) = D.lt x D.one

-- `SlaPolicy.__post_init__`: the policy, if its fields are accepted.
unfoldable pub sla_policy : {F : Type 0} → Durations F → SlaPolicy F → Result (SlaPolicy F)
sla_policy D p = do
  raise_if (is_blank p.version) invalid_sla_policy
  raise_if (not p.assumed) invalid_sla_policy
  raise_if (not (occurs_in assumed_version_marker (D.lower p.version))) invalid_sla_policy
  raise_if (leb_ℤ p.approval_sla (pos 0)) invalid_sla_policy
  raise_if (leb_ℤ p.execution_start_sla (pos 0)) invalid_sla_policy
  raise_if (leb_ℤ p.completion_sla (pos 0)) invalid_sla_policy
  raise_if (not (D.lt D.nought p.due_soon_fraction && D.le p.due_soon_fraction D.one))
      invalid_sla_policy
  raise_if (ltb (length p.escalation_multipliers) 1) invalid_sla_policy
  raise_if (ltb max_escalation_steps (length p.escalation_multipliers)) invalid_sla_policy
  raise_if (starts_early D p.escalation_multipliers) invalid_sla_policy
  raise_if (not (increasing D p.escalation_multipliers)) invalid_sla_policy
  ok p

-- The loop over the steps: how many have been reached.
unfoldable pub level_of : {F : Type 0} → Durations F → ℤ → ℤ → ℤ → List F → ℕ
level_of D started_at evaluated_at sla [] = 0
level_of D started_at evaluated_at sla (step ∷ steps) =
    let rest = level_of D started_at evaluated_at sla steps in
    if leb_ℤ (started_at +ℤ D.times sla step) evaluated_at then suc rest else rest

-- `SlaPolicy.timing`, of aware moments.
unfoldable pub timing_at : {F : Type 0} → Durations F → SlaPolicy F → ℤ → ℤ → ℤ → SlaTiming
timing_at D p sla started_at evaluated_at = record {
  started_at = started_at;
  evaluated_at = evaluated_at;
  sla = sla;
  due_at = started_at +ℤ sla;
  due_soon_at = started_at +ℤ D.times sla p.due_soon_fraction;
  elapsed = max_ℤ (evaluated_at -ℤ started_at) (pos 0);
  escalation_level = level_of D started_at evaluated_at sla p.escalation_multipliers;
}

-- The moment of an aware datetime.
abbrev pub moment_of : Datetime → Result ℤ
moment_of d = elim (aware d) [ none ↦ err invalid_sla_policy | some a ↦ ok a.micros ]

-- `SlaPolicy.timing`
unfoldable pub timing :
    {F : Type 0} → Durations F → SlaPolicy F → ℤ → Datetime → Datetime → Result SlaTiming
timing D p sla started_at evaluated_at = do
  started ← moment_of started_at
  evaluated ← moment_of evaluated_at
  ok (timing_at D p sla started evaluated)

pub data DefectSeverity : Type 0 where
  critical moderate minor no_severity : DefectSeverity

-- `DefectSeverity(raw)`
unfoldable pub severity_from : Value → Option DefectSeverity
severity_from (text s) = get s (
    ("CRITICAL", critical) ∷ ("MODERATE", moderate) ∷ ("MINOR", minor) ∷ ("NONE", no_severity) ∷ [])
severity_from _ = none

-- A policy for every severity, under one version.
pub record SlaPolicySet (F : Type 0) : Type 0 where
  pub version : String
  pub by_severity : DefectSeverity → SlaPolicy F

abbrev all_severities : List DefectSeverity
all_severities = critical ∷ moderate ∷ minor ∷ no_severity ∷ []

-- `SlaPolicySet.__post_init__`, of a mapping that has every severity.
unfoldable pub sla_policy_set : {F : Type 0} → SlaPolicySet F → Result (SlaPolicySet F)
sla_policy_set s = do
  raise_if (any (λ d. not ((s.by_severity d).version == s.version)) all_severities)
      invalid_sla_policy
  ok s

-- `for_severity`
abbrev pub for_severity : {F : Type 0} → SlaPolicySet F → Option DefectSeverity → SlaPolicy F
for_severity s none = s.by_severity no_severity
for_severity s (some d) = s.by_severity d

-- The policy of the severity that a job's metadata carries.
unfoldable pub resolve_raw : {F : Type 0} → SlaPolicySet F → Value → Result (SlaPolicy F)
resolve_raw s null = ok (for_severity s (some no_severity))
resolve_raw s raw = elim (severity_from raw) [
  | none ↦ err invalid_sla_policy
  | some d ↦ ok (for_severity s (some d))
]

-- `resolve_sla`
unfoldable pub resolve_sla : {F G : Type 0} → SlaPolicySet F → Job G → Result (SlaPolicy F)
resolve_sla s job = resolve_raw s (get_value "reported_severity" job.block_candidate.metadata)
