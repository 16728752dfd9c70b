-- ===== src/Python.antt =====
-- What the code uses of Python's `float` and of `int(...)` on a JSON value, as a parameter: floats
-- are not modelled, and the theorems hold for every choice of these operations.
use pashupatastra_sih.Prelude.{ℕ, ℤ, Bool, Option, ◌≡◌, String, List, In}
use pashupatastra_sih.Prelude.Dict.{Dict}
use pashupatastra_sih.Result.{Result, ok}
use pashupatastra_sih.Contracts.{Value, num}

pub record Builtins (F : Type 0) : Type 0 where
  -- `int(value)`, with what it raises: ValueError for a text that is no number, TypeError for None
  pub int_of : Value → Result ℤ
  -- `a + b`, `a < b` and `0.0` of floats
  pub add : F → F → F
  pub lt : F → F → Bool
  pub zero : F
  -- `round(x, 3)`
  pub round3 : F → F
  -- `round(_SCORE_SCALE * x)`, with `_SCORE_SCALE = 1000`
  pub round_scaled : F → ℤ
  -- `int(n)` of an int is the int
  pub int_of_num : (n : ℤ) → int_of (num n) ≡ ok n

-- The order in which a set of texts is walked, which Python leaves open: a parameter.
pub record SetOrder : Type 0 where
  pub walk : List String → List String
  pub walk-In : (x : String) (xs : List String) → In x (walk xs) → In x xs
  pub In-walk : (x : String) (xs : List String) → In x xs → In x (walk xs)

-- A `datetime`: microseconds since the epoch, in UTC if it has an offset from UTC (in microseconds,
-- fixed, as `fromisoformat` reads it) and on its own clock if it has none.
pub record Datetime : Type 0 where
  pub micros : ℤ
  pub offset : Option ℤ

-- What the code uses of Python's standard library, as a parameter.
pub record Platform : Type 0 where
  -- `datetime.fromisoformat(s)`; `none` where it raises
  pub from_iso : String → Option Datetime
  -- `isoformat(timespec="microseconds")` of a moment in UTC
  pub to_iso : ℤ → String
  -- `sha256(json.dumps(payload))` in hex, with sorted keys
  pub sha256_json : Dict Value → String
  -- `float(n)` of an int, and `isfinite(x) and -n <= x <= n`, of a float as its JSON text
  pub to_float : ℤ → String
  pub within : ℕ → String → Bool
  -- the n-th `uuid.uuid4().hex.upper()` of a call
  pub new_hex : ℕ → String

-- What the code uses of Python's `float` on durations (in microseconds), as a parameter.
pub record Durations (F : Type 0) : Type 0 where
  -- `a < b` and `a <= b` of floats, `0.0` and `1.0`
  pub lt : F → F → Bool
  pub le : F → F → Bool
  pub nought : F
  pub one : F
  -- `duration * x`, rounded to a microsecond
  pub times : ℤ → F → ℤ
  -- `s.lower()`
  pub lower : String → String
