-- ===== src/Examples/Checker.antt =====
-- A solver in the place of CP-SAT: it reports one given assignment where a test finds that the
-- assignment satisfies the model, and nothing otherwise.
use pashupatastra_sih.Prelude.{
  ℤ, pos, leb_ℤ, eqb_ℤ, eqb_ℤ_sound, eqb_ℤ_refl, ◌+ℤ◌, ◌≤ℤ◌, ◌≡◌, refl, Bool, true, false, ◌&&◌,
  ◌||◌, inl, inr, List, [], ◌∷◌, All, Bool-cases, arith, if◌then◌else◌,
}
use pashupatastra_sih.Optimizer.Cp.{
  Interval, Constraint, domain, boolean, eq_const, eq_offset, ge_const_if, le_const_if, ge_var_if,
  le_var, sum_eq, no_overlap, Assignment, sum_vars, Apart, NoOverlap, Holds, cp_optimal,
  cp_infeasible, CpSolver, has_solution, IsSound,
}

abbrev pub apart : Assignment → Interval → Interval → Bool
apart v i j =
    if eqb_ℤ (v i.presence_var) (pos 1) && eqb_ℤ (v j.presence_var) (pos 1)
    then leb_ℤ (v i.end_var) (v j.start_var) || leb_ℤ (v j.end_var) (v i.start_var)
    else true

abbrev pub apart_from : Assignment → Interval → List Interval → Bool
apart_from v i [] = true
apart_from v i (j ∷ js) = apart v i j && apart_from v i js

abbrev pub all_apart : Assignment → List Interval → Bool
all_apart v [] = true
all_apart v (i ∷ is) = apart_from v i is && all_apart v is

abbrev pub holds : Assignment → Constraint → Bool
holds v (domain x lo hi) = leb_ℤ lo (v x) && leb_ℤ (v x) hi
holds v (boolean x) = eqb_ℤ (v x) (pos 0) || eqb_ℤ (v x) (pos 1)
holds v (eq_const x c) = eqb_ℤ (v x) c
holds v (eq_offset x y c) = eqb_ℤ (v x) (v y +ℤ c)
holds v (ge_const_if x c b) = if eqb_ℤ (v b) (pos 1) then leb_ℤ c (v x) else true
holds v (le_const_if x c b) = if eqb_ℤ (v b) (pos 1) then leb_ℤ (v x) c else true
holds v (ge_var_if x y b) = if eqb_ℤ (v b) (pos 1) then leb_ℤ (v y) (v x) else true
holds v (le_var x y) = leb_ℤ (v x) (v y)
holds v (sum_eq xs y) = eqb_ℤ (sum_vars v xs) (v y)
holds v (no_overlap is) = all_apart v is

abbrev pub all_hold : Assignment → List Constraint → Bool
all_hold v [] = true
all_hold v (c ∷ cs) = holds v c && all_hold v cs

leb_sound : (a b : ℤ) → leb_ℤ a b ≡ true → a ≤ℤ b
leb_sound a b h = ground arith

apart-Apart : (v : Assignment) (i j : Interval) → apart v i j ≡ true → Apart v i j
apart-Apart v i j h p q x y = elim (Bool-cases (leb_ℤ (v i.end_var) (v j.start_var))) [
  | inl t ↦ inl (leb_sound (v i.end_var) (v j.start_var) t)
  | inr f ↦ inr (
      leb_sound (v j.end_var) (v i.start_var)
        (other (v i.presence_var) (v j.presence_var) _ _ p q f h))
]
  where
    other :
        (a b : ℤ) (s t : Bool)
        → a ≡ pos 1
        → b ≡ pos 1
        → s ≡ false
        → (if eqb_ℤ a (pos 1) && eqb_ℤ b (pos 1) then s || t else true) ≡ true
        → t ≡ true
    other a b s t p q f h = rw (p, q, eqb_ℤ_refl (pos 1), f) at h

apart_from-All :
    (v : Assignment) (i : Interval) (js : List Interval)
    → apart_from v i js ≡ true
    → All (Apart v i) js
apart_from-All v i [] h = tt
apart_from-All v i (j ∷ js) h =
    (apart-Apart v i j (ground arith), apart_from-All v i js (ground arith))

all_apart-NoOverlap : (v : Assignment) (is : List Interval) → all_apart v is ≡ true → NoOverlap v is
all_apart-NoOverlap v [] h = tt
all_apart-NoOverlap v (i ∷ is) h =
    (apart_from-All v i is (ground arith), all_apart-NoOverlap v is (ground arith))

-- A Boolean test under `OnlyEnforceIf`.
enforced : (a : ℤ) (t : Bool) → (if eqb_ℤ a (pos 1) then t else true) ≡ true → a ≡ pos 1 → t ≡ true
enforced a t h p = rw (p, eqb_ℤ_refl (pos 1)) at h

holds-Holds : (v : Assignment) (c : Constraint) → holds v c ≡ true → Holds v c
holds-Holds v (domain x lo hi) h =
    (leb_sound lo (v x) (ground arith), leb_sound (v x) hi (ground arith))
holds-Holds v (boolean x) h = elim (Bool-cases (eqb_ℤ (v x) (pos 0))) [
  | inl t ↦ inl (eqb_ℤ_sound (v x) (pos 0) t)
  | inr f ↦ inr (eqb_ℤ_sound (v x) (pos 1) (ground arith))
]
holds-Holds v (eq_const x c) h = eqb_ℤ_sound (v x) c h
holds-Holds v (eq_offset x y c) h = eqb_ℤ_sound (v x) (v y +ℤ c) h
holds-Holds v (ge_const_if x c b) h = λ p. leb_sound c (v x) (enforced (v b) (leb_ℤ c (v x)) h p)
holds-Holds v (le_const_if x c b) h = λ p. leb_sound (v x) c (enforced (v b) (leb_ℤ (v x) c) h p)
holds-Holds v (ge_var_if x y b) h =
    λ p. leb_sound (v y) (v x) (enforced (v b) (leb_ℤ (v y) (v x)) h p)
holds-Holds v (le_var x y) h = leb_sound (v x) (v y) h
holds-Holds v (sum_eq xs y) h = eqb_ℤ_sound (sum_vars v xs) (v y) h
holds-Holds v (no_overlap is) h = all_apart-NoOverlap v is h

all_hold-All : (v : Assignment) (cs : List Constraint) → all_hold v cs ≡ true → All (Holds v) cs
all_hold-All v [] h = tt
all_hold-All v (c ∷ cs) h = (holds-Holds v c (ground arith), all_hold-All v cs (ground arith))

abbrev pub checking : Assignment → CpSolver
checking v m = record {
  status = if all_hold v m.constraints then cp_optimal else cp_infeasible;
  value = v;
}

pub checking-IsSound : (v : Assignment) → IsSound (checking v)
checking-IsSound v = record {
  satisfies = λ m h. all_hold-All v m.constraints (held (all_hold v m.constraints) h);
}
  where
    held : (b : Bool) → has_solution (if b then cp_optimal else cp_infeasible) ≡ true → b ≡ true
    held true h = refl
    held false h = cc
