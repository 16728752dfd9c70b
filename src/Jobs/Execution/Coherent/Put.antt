-- ===== src/Jobs/Execution/Coherent/Put.antt =====
-- Records that are appended and changed in place.
use pashupatastra_sih.Prelude.{
  ℕ, suc, ◌+◌, pos, String, true, false, List, [], ◌∷◌, ◌++◌, some, ◌≡◌, refl, sym, ap, ◌∙◌, subst,
  ==_iff, ◌==◌, find, length, All, arith, inl, inr, ◌⊎◌, Bool-cases, some_injective,
}
use pashupatastra_sih.Jobs.Execution.Records.{ExecutionRecord, is_open, put_record}
use pashupatastra_sih.Jobs.Execution.Coherent.{Follows, Ordered, Numbered, SameExecution}

pub All-snoc :
    (Q : ExecutionRecord → Type 0) (rs : List ExecutionRecord) (r : ExecutionRecord)
    → All Q rs
    → Q r
    → All Q (rs ++ (r ∷ []))
All-snoc Q [] r a q = (q, tt)
All-snoc Q (x ∷ rs) r a q = (a.0, All-snoc Q rs r a.1 q)

pub Ordered-append :
    (rs : List ExecutionRecord) (s : ExecutionRecord)
    → Ordered rs
    → All (λ r. Follows r s) rs
    → Ordered (rs ++ (s ∷ []))
Ordered-append [] s o f = (tt, tt)
Ordered-append (r ∷ rs) s o f = (All-snoc (Follows r) rs s o.0 f.0, Ordered-append rs s o.1 f.1)

pub Numbered-append :
    (n : ℕ) (rs : List ExecutionRecord) (s : ExecutionRecord)
    → Numbered n rs
    → s.attempt_number ≡ pos (n + length rs)
    → Numbered n (rs ++ (s ∷ []))
Numbered-append n [] s h e = (e ∙ ap pos (omega arith), tt)
Numbered-append n (r ∷ rs) s h e =
    (h.0, Numbered-append (suc n) rs s h.1 (e ∙ ap pos (omega arith)))

pub find-cases :
    (k : String) (x : ExecutionRecord) (rs : List ExecutionRecord) {r : ExecutionRecord}
    → find (λ y. y.execution_id == k) (x ∷ rs) ≡ some r
    → ((x.execution_id ≡ k) × (x ≡ r))
      ⊎ ((x.execution_id == k) ≡ false) × (find (λ y. y.execution_id == k) rs ≡ some r)
unfolding find
find-cases k x rs h = elim (Bool-cases (x.execution_id == k)) [
  | inl t ↦ inl ((==_iff x.execution_id k).0 t, some_injective (rw t at h))
  | inr f ↦ inr (f, rw f at h)
]

module _ (k : String) (r new : ExecutionRecord) (same : SameExecution r new)
    (named : r.execution_id ≡ k) where
  -- The head of the list that is changed in place.
  pub put-head :
      (x : ExecutionRecord) (rs : List ExecutionRecord)
      → (x.execution_id == k) ≡ true
      → put_record new (x ∷ rs) ≡ new ∷ rs
  unfolding put_record
  put-head x rs t =
      let alike : (x.execution_id == new.execution_id) ≡ true =
        subst (λ i. (x.execution_id == i) ≡ true) (sym (sym same.same_id ∙ named)) t in
      rw alike refl

  pub put-tail :
      (x : ExecutionRecord) (rs : List ExecutionRecord)
      → (x.execution_id == k) ≡ false
      → put_record new (x ∷ rs) ≡ x ∷ put_record new rs
  unfolding put_record
  put-tail x rs f =
      let unlike : (x.execution_id == new.execution_id) ≡ false =
        subst (λ i. (x.execution_id == i) ≡ false) (sym (sym same.same_id ∙ named)) f in
      rw unlike refl

  pub All-put :
      (Q : ExecutionRecord → Type 0) (rs : List ExecutionRecord)
      → find (λ y. y.execution_id == k) rs ≡ some r
      → (Q r → Q new)
      → All Q rs
      → All Q (put_record new rs)
  unfolding find
  All-put Q [] h f a = cc
  All-put Q (x ∷ rs) h f a = elim (find-cases k x rs h) [
    | inl (i, e) ↦
        subst (All Q) (sym (put-head x rs ((==_iff x.execution_id k).1 i))) (f (subst Q e a.0), a.1)
    | inr (n, g) ↦ subst (All Q) (sym (put-tail x rs n)) (a.0, All-put Q rs g f a.1)
  ]

  pub Follows-put : (x : ExecutionRecord) → Follows x r → Follows x new
  Follows-put x f = record {
    gave_up = f.gave_up;
    new_id = λ e. f.new_id (e ∙ sym same.same_id);
    new_run = λ e. f.new_run (e ∙ sym same.same_run);
  }

  pub alone :
      (x : ExecutionRecord) (rs : List ExecutionRecord)
      → All (Follows x) rs
      → is_open x.status ≡ true
      → rs ≡ []
  alone x [] a o = refl
  alone x (y ∷ rs) a o = let e = a.0.gave_up in cc (rw e at o)

  pub Ordered-put :
      (rs : List ExecutionRecord)
      → find (λ y. y.execution_id == k) rs ≡ some r
      → is_open r.status ≡ true
      → Ordered rs
      → Ordered (put_record new rs)
  unfolding find
  Ordered-put [] h o a = cc
  Ordered-put (x ∷ rs) h o a = elim (find-cases k x rs h) [
    | inl (i, e) ↦
        let none_later = alone x rs a.0 (subst (λ y. is_open y.status ≡ true) (sym e) o) in
        subst Ordered (sym (put-head x rs ((==_iff x.execution_id k).1 i)))
          (subst (λ ys. Ordered (new ∷ ys)) (sym none_later) (tt, tt))
    | inr (n, g) ↦
        subst Ordered (sym (put-tail x rs n))
          (All-put (Follows x) rs g (Follows-put x) a.0, Ordered-put rs g o a.1)
  ]

  pub Numbered-put :
      (n : ℕ) (rs : List ExecutionRecord)
      → find (λ y. y.execution_id == k) rs ≡ some r
      → Numbered n rs
      → Numbered n (put_record new rs)
  unfolding find
  Numbered-put n [] h a = cc
  Numbered-put n (x ∷ rs) h a = elim (find-cases k x rs h) [
    | inl (i, e) ↦
        subst (Numbered n) (sym (put-head x rs ((==_iff x.execution_id k).1 i)))
          (sym same.same_attempt ∙ sym (ap (λ y. y.attempt_number) e) ∙ a.0, a.1)
    | inr (m, g) ↦ subst (Numbered n) (sym (put-tail x rs m)) (a.0, Numbered-put (suc n) rs g a.1)
  ]
