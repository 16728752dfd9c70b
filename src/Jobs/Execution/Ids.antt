-- ===== src/Jobs/Execution/Ids.antt =====
-- The ids of backend/app/jobs/execution.py.
use Prim.Native.Nat.{ℕ, zero, suc}
use Prim.Native.Char.{Char, code}
use Prim.Native.String.{String, [], ◌∷◌, ◌++◌}
use Prim.Native.String.append
use mathlib.Core.Path.{◌≡◌, refl}
use native.Mathlib.Omega.{arith}
use mathlib.Core.Bool.{Bool, true, false, ◌&&◌, ◌||◌}
use pashupatastra_sih.Prelude.Blank.{cons_filled}
use pashupatastra_sih.Prelude.Tests.{leb, ◌==◌}

-- `[0-9A-F]`
abbrev pub is_hex : Char → Bool
is_hex c = (leb 48 (code c) && leb (code c) 57) || (leb 65 (code c) && leb (code c) 70)

-- `[0-9A-F]{n}$`; the dollar sign also matches before a newline that ends the text.
unfoldable pub hex_tail : ℕ → String → Bool
hex_tail zero s = s == "" || s == "\n"
hex_tail (suc n) [] = false
hex_tail (suc n) (c ∷ s) = is_hex c && hex_tail n s

-- `^<prefix>[0-9A-F]{32}$`
unfoldable pub matches_id : String → String → Bool
matches_id [] s = hex_tail 32 s
matches_id (p ∷ prefix) [] = false
matches_id (p ∷ prefix) (c ∷ s) =
    (leb (code p) (code c) && leb (code c) (code p)) && matches_id prefix s

-- `is_execution_id`, of a text.
abbrev pub is_execution_id : String → Bool
is_execution_id s = matches_id "EXE-" s

-- `EVIDENCE_ID_PATTERN.match`
abbrev pub is_evidence_id : String → Bool
is_evidence_id s = matches_id "EVD-" s

-- `proposal_id_for`
unfoldable pub proposal_id_for : String → String → String
proposal_id_for run job_id = "PROP-" ++ (run ++ ("-" ++ job_id))

pub matches_id-prefix : (prefix s : String) → matches_id prefix (prefix ++ s) ≡ hex_tail 32 s
unfolding matches_id
matches_id-prefix [] s = rw (append.nil s) refl
matches_id-prefix (c ∷ prefix) s = rw (append.cons c prefix s) (same c (matches_id-prefix prefix s))
  where
    same :
        (c : Char) {a b : Bool}
        → a ≡ b
        → ((leb (code c) (code c) && leb (code c) (code c)) && a) ≡ b
    same c h = ground arith

-- A proposal's id is not empty.
pub proposal_id_for-filled : (run job_id : String) → (proposal_id_for run job_id == "") ≡ false
unfolding proposal_id_for
proposal_id_for-filled run job_id = filled "P" "ROP-" (run ++ ("-" ++ job_id))
  where
    filled : (c : Char) (s t : String) → ((c ∷ s) ++ t == "") ≡ false
    filled c s t = rw (append.cons c s t) (cons_filled c (s ++ t))

-- An id is not empty.
pub is_execution_id-filled : (s : String) → is_execution_id s ≡ true → (s == "") ≡ false
unfolding matches_id
is_execution_id-filled [] h = cc
is_execution_id-filled (c ∷ s) h = cons_filled c s
