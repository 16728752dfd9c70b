-- ===== src/Jobs/Execution/Time.antt =====
-- The observed times of backend/app/jobs/execution.py. The callers pass texts.
use pashupatastra_sih.Prelude.{
  ℤ, pos, ◌+ℤ◌, ltb_ℤ, floor_div, floor_mod, ltb, String, Bool, ◌&&◌, none, some, if◌then◌else◌,
}
use Prim.Native.Nat.{◌/◌}
use pashupatastra_sih.Prelude.Blank.{strip}
use pashupatastra_sih.Result.{Result, ok, err, ◌>>=◌, raise_if, evidence_validation}
use pashupatastra_sih.Python.{Platform}
use pashupatastra_sih.Data.HorizonAnchor.{
  Aware, aware, parse_horizon_start, horizon_relative_minutes, micros_per_minute, micros_per_day,
}

-- `MAX_OBSERVATION_FUTURE_SKEW`
abbrev pub max_future_skew : ℤ
max_future_skew = pos 300000000

-- `parse_observed_at`: the moment.
unfoldable pub parse_observed_at : Platform → String → Result ℤ
parse_observed_at P value = elim (P.from_iso (strip value)) [
  | none ↦ err evidence_validation
  | some d ↦ elim (aware d) [ none ↦ err evidence_validation | some a ↦ ok a.micros ]
]

-- `canonical_observed_at`
abbrev pub canonical_observed_at : Platform → ℤ → String
canonical_observed_at P moment = P.to_iso moment

-- `require_not_in_future`
abbrev pub require_not_in_future : ℤ → ℤ → Result (Unit {0})
require_not_in_future moment now =
    raise_if (ltb_ℤ (now +ℤ max_future_skew) moment) evidence_validation

-- `observed_minute`, after the horizon's start is parsed.
unfoldable pub minute_after : ℤ → Aware → Bool → Result ℤ
minute_after moment anchor ceil = do
  let local = moment +ℤ anchor.offset
  let clock = floor_mod local micros_per_day / micros_per_minute
  minute ← horizon_relative_minutes (floor_div local micros_per_day) (pos clock) (pos 0) anchor
  ok (if ceil && ltb 0 (floor_mod local micros_per_minute) then minute +ℤ pos 1 else minute)

-- `observed_minute`
unfoldable pub observed_minute : Platform → ℤ → String → Bool → Result ℤ
observed_minute P moment horizon_start ceil = do
  anchor ← parse_horizon_start P horizon_start
  minute_after moment anchor ceil
