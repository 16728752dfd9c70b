-- ===== src/Jobs/Values.antt =====
-- The equality of metadata values, of Jobs.State, is that of the values.
use pashupatastra_sih.Prelude.{
  ◌≡◌, refl, ap, ap₂, String, true, false, list_eq, list_eq_sound, list_eq_refl, ◌==◌, inl, inr,
  arith, Bool-cases, ==_iff, eqb_ℤ_sound, eqb_ℤ_refl,
}
use pashupatastra_sih.Contracts.{
  Scalar, missing, boolean, integer, string, real, nested, Value, null, num, text, json, fields,
  entries,
}
use pashupatastra_sih.Jobs.State.{scalar_eq, member_eq, value_eq}

scalar_eq_sound : (a b : Scalar) → scalar_eq a b ≡ true → a ≡ b
scalar_eq_sound missing missing h = refl
scalar_eq_sound (boolean true) (boolean b) h = rw h refl
scalar_eq_sound (boolean false) (boolean b) h = ground arith
scalar_eq_sound (integer m) (integer n) h = ap integer (eqb_ℤ_sound m n h)
scalar_eq_sound (string s) (string t) h = ap string ((==_iff s t).0 h)
scalar_eq_sound (real s) (real t) h = ap real ((==_iff s t).0 h)
scalar_eq_sound (nested s) (nested t) h = ap nested ((==_iff s t).0 h)
scalar_eq_sound _ _ h = cc

member_eq_sound : (a b : String × Scalar) → member_eq a b ≡ true → a ≡ b
member_eq_sound (j, a) (k, b) h = elim (Bool-cases (j == k)) [
  | inl t ↦ ap₂ (λ x y. (x, y)) ((==_iff j k).0 t) (scalar_eq_sound a b (rw t at h))
  | inr f ↦ cc (rw f at h)
]

pub value_eq_sound : (a b : Value) → value_eq a b ≡ true → a ≡ b
unfolding value_eq
value_eq_sound null null h = refl
value_eq_sound (num m) (num n) h = ap num (eqb_ℤ_sound m n h)
value_eq_sound (text s) (text t) h = ap text ((==_iff s t).0 h)
value_eq_sound (json s) (json t) h = ap json ((==_iff s t).0 h)
value_eq_sound (fields d) (fields e) h = ap fields (list_eq_sound member_eq member_eq_sound d e h)
value_eq_sound (entries ds) (entries es) h =
    ap entries (list_eq_sound (list_eq member_eq) (list_eq_sound member_eq member_eq_sound) ds es h)
value_eq_sound _ _ h = cc

pub scalar_eq_refl : (a : Scalar) → scalar_eq a a ≡ true
scalar_eq_refl missing = refl
scalar_eq_refl (boolean true) = refl
scalar_eq_refl (boolean false) = refl
scalar_eq_refl (integer n) = eqb_ℤ_refl n
scalar_eq_refl (string s) = (==_iff s s).1 refl
scalar_eq_refl (real s) = (==_iff s s).1 refl
scalar_eq_refl (nested s) = (==_iff s s).1 refl

member_eq_refl : (a : String × Scalar) → member_eq a a ≡ true
member_eq_refl (k, a) = rw ((==_iff k k).1 refl) (scalar_eq_refl a)

pub value_eq_refl : (v : Value) → value_eq v v ≡ true
unfolding value_eq
value_eq_refl null = refl
value_eq_refl (num n) = eqb_ℤ_refl n
value_eq_refl (text s) = (==_iff s s).1 refl
value_eq_refl (json s) = (==_iff s s).1 refl
value_eq_refl (fields d) = list_eq_refl member_eq member_eq_refl d
value_eq_refl (entries ds) =
    list_eq_refl (list_eq member_eq) (list_eq_refl member_eq member_eq_refl) ds
