-- ===== src/Optimizer/Unique.antt =====
-- solver.py keys its dicts by `block_id`: where the candidates' ids are distinct, the lookups by id
-- give each candidate its own variables.
use pashupatastra_sih.Prelude.{
  ℕ, suc, ◌≡◌, refl, sym, ap, subst, ◌∙◌, ◌≢◌, String, Bool, true, none, some, Option-cases, List,
  [], ◌∷◌, ◌==◌, ==_iff, keep, All, All-In, In, here, there, Bool-cases, inl, inr, arith, any-true,
  any_intro, keep-In, In-keep, some_injective,
}
use pashupatastra_sih.Contracts.{BlockCandidate}
use pashupatastra_sih.Optimizer.Solver.{Entry, entries_from, entries, by_id, resolve, ids, member}

-- No two candidates have the same `block_id`.
abbrev pub UniqueIds : {F : Type 0} → List (BlockCandidate F) → Type 0
UniqueIds [] = Unit
UniqueIds (b ∷ bs) = All (λ c. c.block_id ≢ b.block_id) bs × UniqueIds bs

pub entries-In :
    {F : Type 0} (n : ℕ) (bs : List (BlockCandidate F)) {e : Entry F}
    → In e (entries_from n bs)
    → In e.1 bs
unfolding entries_from
entries-In n [] i = elim i [ ]
entries-In n (b ∷ bs) (here q) = here (ap (λ e. e.1) q)
entries-In n (b ∷ bs) (there i) = there (entries-In (suc n) bs i)

pub In-entries :
    {F : Type 0} (n : ℕ) (bs : List (BlockCandidate F)) {b : BlockCandidate F}
    → In b bs
    → (k : ℕ) × In (k, b) (entries_from n bs)
unfolding entries_from
In-entries n [] i = elim i [ ]
In-entries n (c ∷ bs) (here q) = (n, here (ap (λ b. (n, b)) q))
In-entries n (c ∷ bs) (there i) = let (k, j) = In-entries (suc n) bs i in (k, there j)

by_id-fresh :
    {F : Type 0} (k : String) (n : ℕ) (bs : List (BlockCandidate F))
    → All (λ c. c.block_id ≢ k) bs
    → by_id k (entries_from n bs) ≡ none
unfolding by_id entries_from
by_id-fresh k n [] h = refl
by_id-fresh k n (b ∷ bs) h = ground (arith, by_id-fresh k (suc n) bs h.1, ==_iff b.block_id k, h.0)

-- A lookup finds an entry of the table, with the key asked for.
pub by_id-some :
    {F : Type 0} (k : String) (es : List (Entry F)) {e : Entry F}
    → by_id k es ≡ some e
    → In e es × (e.1.block_id ≡ k)
unfolding by_id
by_id-some {F} k [] h = cc
by_id-some {F} k ((n, b) ∷ es) {e} h = elim (Option-cases (by_id k es)) [
  | inl q ↦ elim (Bool-cases (b.block_id == k)) [
    | inl t ↦
        let p : e ≡ (n, b) = sym (some_injective (rw (q, by_id, t) at h)) in
        (here p, subst (λ f. f.1.block_id ≡ k) (sym p) ((==_iff b.block_id k).0 t))
    | inr f ↦ cc (rw (q, by_id, f) at h)
  ]
  | inr (f, q) ↦
      let r = by_id-some k es q in
      let p : e ≡ f = sym (some_injective (rw (q, by_id) at h)) in
      (there (subst (λ g. In g es) (sym p) r.0), subst (λ g. g.1.block_id ≡ k) (sym p) r.1)
]

pub by_id_self :
    {F : Type 0} (n : ℕ) (bs : List (BlockCandidate F)) {e : Entry F}
    → UniqueIds bs
    → In e (entries_from n bs)
    → by_id e.1.block_id (entries_from n bs) ≡ some e
unfolding by_id entries_from
by_id_self n [] u i = elim i [ ]
by_id_self n (b ∷ bs) u (here q) =
    subst (λ f. by_id f.1.block_id (entries_from n (b ∷ bs)) ≡ some f) (sym q)
      (rw (by_id, by_id-fresh b.block_id (suc n) bs u.0, (==_iff b.block_id b.block_id).1 refl))
by_id_self n (b ∷ bs) u (there i) = rw (by_id, by_id_self (suc n) bs u.1 i)

-- So each candidate is its own entry in the dicts.
pub resolve_self :
    {F : Type 0} (bs : List (BlockCandidate F)) {e : Entry F}
    → UniqueIds bs
    → In e (entries bs)
    → resolve (entries bs) e ≡ e
resolve_self bs u i = rw (resolve, by_id_self 0 bs u i)

-- Distinct ids tell candidates apart.
pub eq_of_id :
    {F : Type 0} (bs : List (BlockCandidate F)) {b c : BlockCandidate F}
    → UniqueIds bs
    → In b bs
    → In c bs
    → b.block_id ≡ c.block_id
    → b ≡ c
eq_of_id [] u i j e = elim i [ ]
eq_of_id (x ∷ bs) u (here p) (here q) e = p ∙ sym q
eq_of_id (x ∷ bs) u (here p) (there j) e =
    absurd (All-In _ bs u.0 j (sym e ∙ ap (λ y. y.block_id) p))
eq_of_id (x ∷ bs) u (there i) (here q) e = absurd (All-In _ bs u.0 i (e ∙ ap (λ y. y.block_id) q))
eq_of_id (x ∷ bs) u (there i) (there j) e = eq_of_id bs u.1 i j e

pub ids-In :
    {F : Type 0} (bs : List (BlockCandidate F)) {k : String}
    → In k (ids bs)
    → (b : BlockCandidate F) × In b bs × (b.block_id ≡ k)
ids-In [] i = elim i [ ]
ids-In (b ∷ bs) (here q) = (b, here refl, sym q)
ids-In (b ∷ bs) (there i) = let (c, j, e) = ids-In bs i in (c, there j, e)

pub In-ids :
    {F : Type 0} (bs : List (BlockCandidate F)) {b : BlockCandidate F}
    → In b bs
    → In b.block_id (ids bs)
In-ids [] i = elim i [ ]
In-ids (c ∷ bs) (here q) = here (ap (λ y. y.block_id) q)
In-ids (c ∷ bs) (there i) = there (In-ids bs i)

pub member-In : (k : String) (ks : List String) → member k ks ≡ true → In k ks
member-In k ks h =
    let (y, i, e) = any-true (λ y. y == k) ks h in subst (λ z. In z ks) ((==_iff y k).0 e) i

pub In-member : (k : String) (ks : List String) → In k ks → member k ks ≡ true
In-member k ks i = any_intro (λ y. y == k) ks i ((==_iff k k).1 refl)

-- An id is in the set of ids that pass a test exactly when its candidate does.
pub member-keep :
    {F : Type 0} (p : BlockCandidate F → Bool) (bs : List (BlockCandidate F)) {b : BlockCandidate F}
    → UniqueIds bs
    → In b bs
    → member b.block_id (ids (keep p bs)) ≡ p b
member-keep p bs {b} u i = elim (Bool-cases (p b)) [
  | inl t ↦ In-member b.block_id (ids (keep p bs)) (In-ids (keep p bs) (In-keep p bs i t)) ∙ sym t
  | inr f ↦ elim (Bool-cases (member b.block_id (ids (keep p bs)))) [
    | inl m ↦
        let (c, j, e) = ids-In (keep p bs) (member-In b.block_id (ids (keep p bs)) m) in
        let (k, q) = keep-In p bs j in cc (eq_of_id bs u k i e)
    | inr n ↦ n ∙ sym f
  ]
]
