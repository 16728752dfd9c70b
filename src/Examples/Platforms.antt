-- ===== src/Examples/Platforms.antt =====
-- A platform whose texts of moments count in marks, but for texts that start with a 2, which are all
-- one moment.
use Prim.Native.Nat.{zero}
use Prim.Native.String.{String, [], ◌∷◌}
use pashupatastra_sih.Prelude.{
  ℕ, suc, ℤ, pos, negsuc, ◌≡◌, refl, ap, true, false, Option, none, some, if◌then◌else◌, ◌==◌,
}
use pashupatastra_sih.Prelude.Blank.{strip, lstrip, rstrip, is_blank, is_space, cons_filled}
use pashupatastra_sih.Python.{Datetime, Platform}
use pashupatastra_sih.Jobs.Execution.Ids.{hex_tail}
use pashupatastra_sih.Jobs.Execution.Platform.{IsPlatform}

unfoldable pub marks : ℕ → String
marks zero = ""
marks (suc n) = "x" ∷ marks n

unfoldable pub tally : String → ℕ
tally [] = 0
tally (c ∷ s) = suc (tally s)

unfoldable pub write_moment : ℤ → String
write_moment (pos n) = "p" ∷ marks n
write_moment (negsuc n) = "n" ∷ marks n

unfoldable pub read_moment : String → Option Datetime
read_moment [] = none
read_moment (c ∷ s) =
    if c ∷ "" == "p"
    then some (record { micros = pos (tally s); offset = some (pos 0) })
    else (if c ∷ "" == "n"
        then some (record { micros = negsuc (tally s); offset = some (pos 0) })
        else (if c ∷ "" == "2"
            then some (record { micros = pos 2; offset = some (pos 0) })
            else none))

abbrev pub zeros : String
zeros = "00000000000000000000000000000000"

abbrev pub platform : Platform
platform = record {
  from_iso = read_moment;
  to_iso = write_moment;
  sha256_json = λ _. "d";
  to_float = λ _. "0.0";
  within = λ _ _. true;
  new_hex = λ _. zeros;
}

tally-marks : (n : ℕ) → tally (marks n) ≡ n
unfolding tally marks
tally-marks zero = refl
tally-marks (suc n) = ap suc (tally-marks n)

read-write :
    (m : ℤ) → read_moment (write_moment m) ≡ some (record { micros = m; offset = some (pos 0) })
unfolding read_moment write_moment
read-write (pos n) = rw (tally-marks n) refl
read-write (negsuc n) = rw (tally-marks n) refl

rstrip-marks : (n : ℕ) → rstrip (marks n) ≡ marks n
unfolding marks rstrip is_blank is_space
rstrip-marks zero = refl
rstrip-marks (suc n) = rw (rstrip-marks n) refl

strip-moment : (m : ℤ) → strip (write_moment m) ≡ write_moment m
unfolding write_moment strip lstrip rstrip is_blank is_space
strip-moment (pos n) = rw (rstrip-marks n) refl
strip-moment (negsuc n) = rw (rstrip-marks n) refl

moment-filled : (m : ℤ) → (write_moment m == "") ≡ false
unfolding write_moment
moment-filled (pos n) = cons_filled "p" (marks n)
moment-filled (negsuc n) = cons_filled "n" (marks n)

pub laws : IsPlatform platform
unfolding hex_tail
laws = record {
  iso_read = read-write;
  iso_strip = strip-moment;
  iso_filled = moment-filled;
  digest_filled = λ _. refl;
  uuid_hex = λ _. refl;
}
