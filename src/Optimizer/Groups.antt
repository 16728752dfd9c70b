-- ===== src/Optimizer/Groups.antt =====
-- `groups.setdefault(key, []).append(item)` over a list, as solver.py builds `by_resource` and
-- `by_mutex_group`.
use pashupatastra_sih.Prelude.{
  ◌≡◌, refl, subst, Bool, true, Option, none, some, List, [], ◌∷◌, ◌++◌, if◌then◌else◌, inl, inr,
  In, here, there, In-append_left, In-append_right, Bool-cases,
}

module _ {K A : Type 0} (eq : K → K → Bool) where
  unfoldable pub add_to : K → A → List (K × List A) → List (K × List A)
  add_to k a [] = (k, a ∷ []) ∷ []
  add_to k a ((j, xs) ∷ gs) = if eq j k then (j, xs ++ a ∷ []) ∷ gs else (j, xs) ∷ add_to k a gs

  -- An item without a key joins no group.
  abbrev add_item : Option K → A → List (K × List A) → List (K × List A)
  add_item none a gs = gs
  add_item (some k) a gs = add_to k a gs

  unfoldable pub group_from : (A → Option K) → List (K × List A) → List A → List (K × List A)
  group_from key gs [] = gs
  group_from key gs (a ∷ as') = group_from key (add_item (key a) a gs) as'

  -- The items under a key.
  pub members : K → List (K × List A) → List A
  members k [] = []
  members k ((j, xs) ∷ gs) = if eq j k then xs else members k gs

  -- What the dict gives for a key, if it is not empty, is one of its groups.
  pub members-In :
      (k : K) (gs : List (K × List A)) {a : A}
      → In a (members k gs)
      → (j : K) × In (j, members k gs) gs
  unfolding members
  members-In k [] i = elim i [ ]
  members-In k ((j, xs) ∷ gs) i = elim (Bool-cases (eq j k)) [
    | inl t ↦ rw (t, members) (j, here refl)
    | inr f ↦ let (m, q) = members-In k gs (rw (f, members) at i) in rw (f, members) (m, there q)
  ]

  module _ (eq_sound : (j k : K) → eq j k ≡ true → j ≡ k) (eq_refl : (k : K) → eq k k ≡ true) where
    -- An item stays under its key.
    members-add_to_keep :
        (k j : K) (a : A) {b : A} (gs : List (K × List A))
        → In b (members k gs)
        → In b (members k (add_to j a gs))
    unfolding members add_to
    members-add_to_keep k j a [] i = elim i [ ]
    members-add_to_keep k j a {b} ((m, xs) ∷ gs) i = elim (Bool-cases (eq m k)) [
      | inl t ↦ elim (Bool-cases (eq m j)) [
        | inl u ↦ rw (u, t) (In-append_left (a ∷ []) (rw (t, members) at i))
        | inr u ↦ rw (u, t) (rw (t, members) at i)
      ]
      | inr f ↦ elim (Bool-cases (eq m j)) [
        | inl u ↦ rw (u, f) (rw (f, members) at i)
        | inr u ↦ rw (u, f) (members-add_to_keep k j a gs (rw (f, members) at i))
      ]
    ]

    members-add_to_new : (k : K) (a : A) (gs : List (K × List A)) → In a (members k (add_to k a gs))
    unfolding members add_to
    members-add_to_new k a [] = rw (eq_refl k) (here refl)
    members-add_to_new k a ((m, xs) ∷ gs) = elim (Bool-cases (eq m k)) [
      | inl t ↦ rw (t, t) (In-append_right xs (here refl))
      | inr f ↦ rw (f, f) (members-add_to_new k a gs)
    ]

    add_item_keep :
        (k : K) (o : Option K) (a : A) {b : A} (gs : List (K × List A))
        → In b (members k gs)
        → In b (members k (add_item o a gs))
    add_item_keep k none a gs i = i
    add_item_keep k (some j) a gs i = members-add_to_keep k j a gs i

    group_from_keep :
        (key : A → Option K) (k : K) {b : A} (gs : List (K × List A)) (xs : List A)
        → In b (members k gs)
        → In b (members k (group_from key gs xs))
    unfolding group_from
    group_from_keep key k gs [] i = i
    group_from_keep key k gs (x ∷ xs) i =
        group_from_keep key k (add_item (key x) x gs) xs (add_item_keep k (key x) x gs i)

    -- Every item with a key stands under that key at the end.
    pub group_from-In :
        (key : A → Option K) (k : K) {a : A} (xs : List A) (gs : List (K × List A))
        → In a xs
        → key a ≡ some k
        → In a (members k (group_from key gs xs))
    unfolding group_from
    group_from-In key k [] gs i e = elim i [ ]
    group_from-In key k {a} (x ∷ xs) gs (here q) e =
        group_from_keep key k (add_item (key x) x gs) xs (
          subst (λ y. In a (members k (add_item (key y) y gs))) q
            (rw e (members-add_to_new k a gs)))
    group_from-In key k (x ∷ xs) gs (there i) e = group_from-In key k xs (add_item (key x) x gs) i e
