-- ===== src/Prelude/Blank.antt =====
-- Python's test that a text is empty or only white space, and `str.strip`.
use Prim.Native.Nat.{ℕ}
use Prim.Native.Char.{Char, code}
use Prim.Native.String.{String, [], ◌∷◌}
use mathlib.Core.Bool.{Bool, true, false, ◌&&◌, ◌||◌}
use Prim.Native.String.compare
use mathlib.Core.Path.{◌≡◌, refl}
use mathlib.Core.Logic.{inl, inr}
use pashupatastra_sih.Prelude.Tests.{leb, if◌then◌else◌, Bool-cases, ◌==◌}

-- `str.isspace` of one character.
unfoldable pub is_space : Char → Bool
is_space c =
    (leb 9 (code c) && leb (code c) 13)
    || ((leb 28 (code c) && leb (code c) 32)
        || (eq 133
            || (eq 160
                || (eq 5760
                    || ((leb 8192 (code c) && leb (code c) 8202)
                        || (eq 8232 || (eq 8233 || (eq 8239 || (eq 8287 || eq 12288)))))))))
  where
    eq : ℕ → Bool
    eq n = leb n (code c) && leb (code c) n

-- `not value or not value.strip()`
unfoldable pub is_blank : String → Bool
is_blank [] = true
is_blank (c ∷ s) = is_space c && is_blank s

unfoldable pub lstrip : String → String
lstrip [] = []
lstrip (c ∷ s) = if is_space c then lstrip s else c ∷ s

unfoldable pub rstrip : String → String
rstrip [] = []
rstrip (c ∷ s) = if is_blank (c ∷ s) then [] else c ∷ rstrip s

-- `str.strip`
unfoldable pub strip : String → String
strip s = rstrip (lstrip s)

rstrip-blank : (s : String) → is_blank (rstrip s) ≡ is_blank s
unfolding rstrip is_blank
rstrip-blank [] = refl
rstrip-blank (c ∷ s) = elim (Bool-cases (is_space c && is_blank s)) [
  | inl t ↦ rw t refl
  | inr f ↦ rw (f, rstrip-blank s) f
]

rstrip-rstrip : (s : String) → rstrip (rstrip s) ≡ rstrip s
unfolding rstrip is_blank
rstrip-rstrip [] = refl
rstrip-rstrip (c ∷ s) = elim (Bool-cases (is_space c && is_blank s)) [
  | inl t ↦ rw t refl
  | inr f ↦ rw (f, rstrip-blank s, f, rstrip-rstrip s) refl
]

lstrip-strip : (s : String) → lstrip (strip s) ≡ strip s
unfolding strip lstrip rstrip is_blank
lstrip-strip [] = refl
lstrip-strip (c ∷ s) = elim (Bool-cases (is_space c)) [
  | inl t ↦ rw t (lstrip-strip s)
  | inr f ↦ simp f
]

-- Stripping twice is stripping once.
pub strip-strip : (s : String) → strip (strip s) ≡ strip s
unfolding strip
strip-strip s = rw (lstrip-strip s) (rstrip-rstrip (lstrip s))

pub cons_filled : (c : Char) (s : String) → (c ∷ s == "") ≡ false
cons_filled c s = rw (compare.cons-nil c s) refl

-- A text with a character that is not white space is not empty.
pub is_blank-filled : (s : String) → is_blank s ≡ false → (s == "") ≡ false
unfolding is_blank
is_blank-filled [] h = cc
is_blank-filled (c ∷ s) h = cons_filled c s
