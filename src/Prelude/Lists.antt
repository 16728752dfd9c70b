-- ===== src/Prelude/Lists.antt =====
-- Lists: membership with its place, a predicate that holds of every element, tests over a list,
-- and comprehensions.
use Prim.Native.Nat.{ℕ, suc}
use mathlib.Core.Path.{◌≡◌, refl, ap₂, subst}
use mathlib.Core.Logic.{◌⊎◌, inl, inr}
use mathlib.Core.Bool.{Bool, true, false}
use mathlib.Core.Option.{Option, none, some}
use mathlib.Core.List.{List, [], ◌∷◌, ◌++◌}
use native.Mathlib.Omega.{arith}
use pashupatastra_sih.Prelude.Tests.{if◌then◌else◌, Bool-cases}

module _ {ℓ} {A : Type ℓ} where
  -- `a` stands in the list.
  pub data In (a : A) : List A → Type ℓ where
    here : {b : A} {xs : List A} → a ≡ b → In a (b ∷ xs)
    there : {b : A} {xs : List A} → In a xs → In a (b ∷ xs)

  abbrev pub All {κ} : (A → Type κ) → List A → Type κ
  All P [] = Unit
  All P (x ∷ xs) = P x × All P xs

  abbrev pub length : List A → ℕ
  length [] = 0
  length (x ∷ xs) = suc (length xs)

  -- Python's `[x for x in xs if p(x)]`.
  unfoldable pub keep : (A → Bool) → List A → List A
  keep p [] = []
  keep p (x ∷ xs) = if p x then x ∷ keep p xs else keep p xs

  -- Python's `any(p(x) for x in xs)`.
  unfoldable pub any : (A → Bool) → List A → Bool
  any p [] = false
  any p (x ∷ xs) = if p x then true else any p xs

  -- Python's `next((x for x in xs if p(x)), None)`.
  unfoldable pub find : (A → Bool) → List A → Option A
  find p [] = none
  find p (x ∷ xs) = if p x then some x else find p xs

  pub All-append {κ} : (P : A → Type κ) (xs ys : List A) → All P (xs ++ ys) → All P xs × All P ys
  All-append P [] ys h = (tt, h)
  All-append P (x ∷ xs) ys h = let r = All-append P xs ys h.1 in ((h.0, r.0), r.1)

  pub All-In {κ} : (P : A → Type κ) {a : A} (xs : List A) → All P xs → In a xs → P a
  All-In P [] h i = elim i [ ]
  All-In P (x ∷ xs) h (here e) = rw e h.0
  All-In P (x ∷ xs) h (there i) = All-In P xs h.1 i

  pub In-append_left : {a : A} {xs : List A} (ys : List A) → In a xs → In a (xs ++ ys)
  In-append_left ys (here e) = here e
  In-append_left ys (there i) = there (In-append_left ys i)

  pub In-append_right : {a : A} (xs : List A) {ys : List A} → In a ys → In a (xs ++ ys)
  In-append_right [] i = i
  In-append_right (x ∷ xs) i = there (In-append_right xs i)

  pub In-append_cases : {a : A} (xs ys : List A) → In a (xs ++ ys) → In a xs ⊎ In a ys
  In-append_cases [] ys i = inr i
  In-append_cases (x ∷ xs) ys (here e) = inl (here e)
  In-append_cases (x ∷ xs) ys (there i) = elim (In-append_cases xs ys i) [
    | inl j ↦ inl (there j)
    | inr j ↦ inr j
  ]

  pub In-keep : {a : A} (p : A → Bool) (xs : List A) → In a xs → p a ≡ true → In a (keep p xs)
  unfolding keep
  In-keep p [] i h = elim i [ ]
  In-keep p (x ∷ xs) (here e) h = elim (Bool-cases (p x)) [ inl t ↦ rw t (here e) | inr f ↦ cc ]
  In-keep p (x ∷ xs) (there i) h = elim (Bool-cases (p x)) [
    | inl t ↦ rw t (there (In-keep p xs i h))
    | inr f ↦ rw f (In-keep p xs i h)
  ]

  -- What `keep` leaves stood in the list and passes the test.
  pub keep-In : {a : A} (p : A → Bool) (xs : List A) → In a (keep p xs) → In a xs × (p a ≡ true)
  unfolding keep
  keep-In p [] i = elim i [ ]
  keep-In p (x ∷ xs) i = elim (Bool-cases (p x)) [
    | inl t ↦ kept t (keep-In p xs) (rw t at i)
    | inr f ↦ let r = keep-In p xs (rw f at i) in (there r.0, r.1)
  ]
    where
      kept :
          {a b : A} {ys zs : List A}
          → p b ≡ true
          → (In a ys → In a zs × (p a ≡ true))
          → In a (b ∷ ys)
          → In a (b ∷ zs) × (p a ≡ true)
      kept t rec (here e) = (here e, rw e t)
      kept t rec (there j) = let r = rec j in (there r.0, r.1)

  pub any-false : (p : A → Bool) {a : A} (xs : List A) → any p xs ≡ false → In a xs → p a ≡ false
  unfolding any
  any-false p [] h i = elim i [ ]
  any-false p (x ∷ xs) h (here e) = ground arith
  any-false p (x ∷ xs) h (there i) = elim (Bool-cases (p x)) [
    | inl t ↦ cc (rw (t, any) at h)
    | inr f ↦ any-false p xs (rw f at h) i
  ]

  pub any-true : (p : A → Bool) (xs : List A) → any p xs ≡ true → (a : A) × In a xs × (p a ≡ true)
  unfolding any
  any-true p [] h = cc
  any-true p (x ∷ xs) h = elim (Bool-cases (p x)) [
    | inl t ↦ (x, here refl, t)
    | inr f ↦ let (a, i, e) = any-true p xs (rw f at h) in (a, there i, e)
  ]

  pub any_intro : (p : A → Bool) {a : A} (xs : List A) → In a xs → p a ≡ true → any p xs ≡ true
  unfolding any
  any_intro p [] i h = elim i [ ]
  any_intro p (x ∷ xs) (here e) h = ground arith
  any_intro p (x ∷ xs) (there i) h = ground (arith, any_intro p xs i h)

  pub find-some : (p : A → Bool) (xs : List A) {a : A} → find p xs ≡ some a → In a xs × (p a ≡ true)
  unfolding find
  find-some p [] h = cc
  find-some p (x ∷ xs) h = elim (Bool-cases (p x)) [
    | inl t ↦ (here (ground arith), ground arith)
    | inr f ↦ let r = find-some p xs (rw f at h) in (there r.0, r.1)
  ]

-- Python's `==` of two lists, by that of the elements.
abbrev pub list_eq {ℓ} : {A : Type ℓ} → (A → A → Bool) → List A → List A → Bool
list_eq eq [] [] = true
list_eq eq [] (y ∷ ys) = false
list_eq eq (x ∷ xs) [] = false
list_eq eq (x ∷ xs) (y ∷ ys) = if eq x y then list_eq eq xs ys else false

pub list_eq_sound {ℓ} :
    {A : Type ℓ} (eq : A → A → Bool)
    → ((x y : A) → eq x y ≡ true → x ≡ y)
    → (xs ys : List A) → list_eq eq xs ys ≡ true
    → xs ≡ ys
list_eq_sound eq sound [] [] h = refl
list_eq_sound eq sound [] (y ∷ ys) h = cc
list_eq_sound eq sound (x ∷ xs) [] h = cc
list_eq_sound eq sound (x ∷ xs) (y ∷ ys) h = elim (Bool-cases (eq x y)) [
  | inl t ↦ ap₂ (λ a b. a ∷ b) (sound x y t) (list_eq_sound eq sound xs ys (rw t at h))
  | inr f ↦ cc (rw f at h)
]

pub list_eq_refl {ℓ} :
    {A : Type ℓ} (eq : A → A → Bool)
    → ((x : A) → eq x x ≡ true)
    → (xs : List A) → list_eq eq xs xs ≡ true
list_eq_refl eq same [] = refl
list_eq_refl eq same (x ∷ xs) = rw (same x) (list_eq_refl eq same xs)

module _ {ℓ κ} {A : Type ℓ} {B : Type κ} where
  -- A loop that appends the results of each round.
  unfoldable pub flat_map : (A → List B) → List A → List B
  flat_map f [] = []
  flat_map f (x ∷ xs) = f x ++ flat_map f xs

  pub All-flat_map {μ} :
      (P : B → Type μ) (f : A → List B) {a : A} (xs : List A)
      → All P (flat_map f xs)
      → In a xs
      → All P (f a)
  unfolding flat_map
  All-flat_map P f [] h i = elim i [ ]
  All-flat_map P f (x ∷ xs) h (here e) = rw e ((All-append P (f x) (flat_map f xs) h).0)
  All-flat_map P f (x ∷ xs) h (there i) =
      All-flat_map P f xs ((All-append P (f x) (flat_map f xs) h).1) i

  pub In-flat_map :
      (f : A → List B) {a : A} {b : B} (xs : List A) → In a xs → In b (f a) → In b (flat_map f xs)
  unfolding flat_map
  In-flat_map f [] i j = elim i [ ]
  In-flat_map f {b = b} (x ∷ xs) (here e) j =
      In-append_left (flat_map f xs) (subst (λ y. In b (f y)) e j)
  In-flat_map f (x ∷ xs) (there i) j = In-append_right (f x) (In-flat_map f xs i j)

  -- Where an element of the concatenation came from.
  pub flat_map-In :
      (f : A → List B) {b : B} (xs : List A) → In b (flat_map f xs) → (a : A) × In a xs × In b (f a)
  unfolding flat_map
  flat_map-In f [] i = elim i [ ]
  flat_map-In f (x ∷ xs) i = elim (In-append_cases (f x) (flat_map f xs) i) [
    | inl j ↦ (x, here refl, j)
    | inr j ↦ let (a, k, m) = flat_map-In f xs j in (a, there k, m)
  ]

module _ {ℓ κ} {A : Type ℓ} where
  pub All-keep : (P : A → Type κ) (p : A → Bool) (xs : List A) → All P xs → All P (keep p xs)
  unfolding keep
  All-keep P p [] h = tt
  All-keep P p (x ∷ xs) h = elim (Bool-cases (p x)) [
    | inl t ↦ rw t (h.0, All-keep P p xs h.1)
    | inr f ↦ rw f (All-keep P p xs h.1)
  ]

  pub All-intro : (P : A → Type κ) (xs : List A) → ((a : A) → In a xs → P a) → All P xs
  All-intro P [] h = tt
  All-intro P (x ∷ xs) h = (h x (here refl), All-intro P xs (λ a i. h a (there i)))
