-- ===== src/Jobs/Execution/Platform.antt =====
-- What the execution records rely on of Python's standard library.
use pashupatastra_sih.Prelude.{ℕ, ℤ, pos, false, true, some, ◌≡◌, ◌==◌}
use pashupatastra_sih.Prelude.Blank.{strip}
use pashupatastra_sih.Prelude.Dict.{Dict}
use pashupatastra_sih.Contracts.{Value}
use pashupatastra_sih.Python.{Platform}
use pashupatastra_sih.Jobs.Execution.Ids.{hex_tail}

pub record IsPlatform (P : Platform) : Type 0 where
  -- `fromisoformat` reads back what `isoformat` writes of a moment in UTC.
  pub iso_read :
      (m : ℤ) → P.from_iso (P.to_iso m) ≡ some (record { micros = m; offset = some (pos 0) })
  -- There is no white space at the ends of what `isoformat` writes.
  pub iso_strip : (m : ℤ) → strip (P.to_iso m) ≡ P.to_iso m
  pub iso_filled : (m : ℤ) → (P.to_iso m == "") ≡ false
  -- A digest is not empty, and a UUID has 32 hexadecimal digits.
  pub digest_filled : (d : Dict Value) → (P.sha256_json d == "") ≡ false
  pub uuid_hex : (n : ℕ) → hex_tail 32 (P.new_hex n) ≡ true
