-- ===== src/Data/HorizonAnchor.antt =====
-- backend/app/data/horizon_anchor.py: minutes of the planning horizon. A calendar date is its day
-- number, and moments are in microseconds.
use pashupatastra_sih.Prelude.{
  ℕ, ℤ, pos, ◌+ℤ◌, ◌-ℤ◌, ltb_ℤ, leb_ℤ, scale, floor_div, floor_mod, ltb, String, Option, none, some,
  ◌||◌,
}
use pashupatastra_sih.Result.{Result, ok, err, ◌>>◌, raise_if, horizon_anchor}
use pashupatastra_sih.Python.{Datetime, Platform}

-- `MINUTES_PER_DAY`
abbrev pub minutes_per_day : ℕ
minutes_per_day = 1440

abbrev pub micros_per_minute : ℕ
micros_per_minute = 60000000

abbrev pub micros_per_day : ℕ
micros_per_day = 86400000000

-- An aware datetime: its moment in UTC and its offset.
pub record Aware : Type 0 where
  pub micros : ℤ
  pub offset : ℤ

-- The datetime with its offset, if it has one.
abbrev pub aware : Datetime → Option Aware
aware d = elim d.offset [ none ↦ none | some o ↦ some (record { micros = d.micros; offset = o }) ]

-- `parse_horizon_start`
unfoldable pub parse_horizon_start : Platform → String → Result Aware
parse_horizon_start P s = elim (P.from_iso s) [
  | none ↦ err horizon_anchor
  | some d ↦ elim (aware d) [ none ↦ err horizon_anchor | some a ↦ ok a ]
]

-- `event_datetime - parsed_horizon_start`
abbrev pub delta : ℤ → ℤ → ℤ → Aware → ℤ
delta service_date clock_minutes day_offset start =
    let midnight = scale micros_per_day service_date -ℤ start.offset in
    midnight
    +ℤ scale micros_per_minute (clock_minutes +ℤ scale minutes_per_day day_offset)
    -ℤ start.micros

-- `horizon_relative_minutes`, of a date and a datetime.
unfoldable pub horizon_relative_minutes : ℤ → ℤ → ℤ → Aware → Result ℤ
horizon_relative_minutes service_date clock_minutes day_offset start = do
  raise_if (ltb_ℤ clock_minutes (pos 0) || leb_ℤ (pos minutes_per_day) clock_minutes) horizon_anchor
  let d = delta service_date clock_minutes day_offset start
  raise_if (ltb 0 (floor_mod d micros_per_minute)) horizon_anchor
  ok (floor_div d micros_per_minute)
