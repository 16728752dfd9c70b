-- ===== src/Jobs/Execution/Sets.antt =====
-- What execution.py's `validate_evidence_set` accepts.
use pashupatastra_sih.Prelude.{
  ℕ, ◌≤◌, ℤ, ◌+ℤ◌, ◌≤ℤ◌, ltb_ℤ, ltb, String, Bool, false, ◌||◌, Option, none, some, List, [], ◌∷◌,
  ◌≡◌, ◌≢◌, refl, ==_iff, ◌==◌, any, any-false, length, All, In, arith, inl, inr, Bool-cases,
}
use pashupatastra_sih.Result.{
  ok, >>=-eq-ok, >>-eq-ok, raise_if, raise_if-ok, ok_injective, evidence_validation,
}
use pashupatastra_sih.Python.{Platform}
use pashupatastra_sih.Jobs.Execution.Time.{max_future_skew}
use pashupatastra_sih.Jobs.Execution.Evidence.{
  EvidenceItem, captured_moment, references, has_repeat, past, check_captured, max_evidence_items,
  validate_evidence_set,
}

-- No text of the list occurs twice.
abbrev pub Apart : List String → Type 0
Apart [] = Unit
Apart (r ∷ rs) = All (λ s. s ≢ r) rs × Apart rs

-- The bound, if there is one, is respected.
abbrev pub Bounded : Option ℤ → (ℤ → Type 0) → Type 0
Bounded none P = Unit
Bounded (some bound) P = P bound

-- The capture of an item is neither in the future nor outside the bounds.
pub record InTime (P : Platform) (now : ℤ) (not_after not_before : Option ℤ) (i : EvidenceItem)
    : Type 0 where
  pub moment : ℤ
  pub captured : captured_moment P i.captured_at ≡ ok moment
  pub not_future : moment ≤ℤ now +ℤ max_future_skew
  pub ends : Bounded not_after (λ bound. moment ≤ℤ bound)
  pub begins : Bounded not_before (λ bound. bound ≤ℤ moment)

unequal : (xs : List String) (r : String) → any (λ s. s == r) xs ≡ false → All (λ s. s ≢ r) xs
unfolding any
unequal [] r h = tt
unequal (x ∷ xs) r h = elim (Bool-cases (x == r)) [
  | inl t ↦ cc (rw (t, any) at h)
  | inr f ↦ (λ e. cc ((==_iff x r).1 e, f), unequal xs r (rw f at h))
]

apart : (rs : List String) → has_repeat rs ≡ false → Apart rs
unfolding has_repeat
apart [] h = tt
apart (r ∷ rs) h = (
  unequal rs r (left (any (λ s. s == r) rs) (has_repeat rs) h),
  apart rs (right (any (λ s. s == r) rs) (has_repeat rs) h),
)
  where
    left : (a b : Bool) → (a || b) ≡ false → a ≡ false
    left a b q = ground arith

    right : (a b : Bool) → (a || b) ≡ false → b ≡ false
    right a b q = ground arith

bounded :
    (o : Option ℤ) (test : ℤ → Bool) (C : ℤ → Type 0)
    → ((b : ℤ) → test b ≡ false → C b)
    → past o test ≡ false
    → Bounded o C
bounded none test C f h = tt
bounded (some b) test C f h = f b h

in_time :
    (P : Platform) (now : ℤ) (not_after not_before : Option ℤ) (items : List EvidenceItem)
    → check_captured P now not_after not_before items ≡ ok tt
    → All (InTime P now not_after not_before) items
unfolding check_captured
in_time P now not_after not_before [] h = tt
in_time P now not_after not_before (i ∷ items) h =
    let (m, em, h1) = >>=-eq-ok (captured_moment P i.captured_at) _ h in
    let (a, h2) = >>-eq-ok (raise_if (ltb_ℤ (now +ℤ max_future_skew) m) evidence_validation) _ h1 in
    let (b, h3) =
      >>-eq-ok (raise_if (past not_after (λ bound. ltb_ℤ bound m)) evidence_validation) _ h2 in
    let (c, h4) =
      >>-eq-ok (raise_if (past not_before (λ bound. ltb_ℤ m bound)) evidence_validation) _ h3 in
    (
      record {
        moment = m;
        captured = em;
        not_future = le (now +ℤ max_future_skew) m (raise_if-ok _ _ a);
        ends =
            bounded not_after (λ bound. ltb_ℤ bound m) (λ bound. m ≤ℤ bound) (λ bound. le bound m)
              (raise_if-ok _ _ b);
        begins =
            bounded not_before (λ bound. ltb_ℤ m bound) (λ bound. bound ≤ℤ m) (λ bound. le m bound)
              (raise_if-ok _ _ c);
      },
      in_time P now not_after not_before items h4,
    )
  where
    le : (a b : ℤ) → ltb_ℤ a b ≡ false → b ≤ℤ a
    le a b h = ground arith

pub record ValidSet (P : Platform) (items : List EvidenceItem) (now : ℤ) (minimum : ℕ)
    (not_after not_before : Option ℤ) (forbidden : List String) : Type 0 where
  pub enough : minimum ≤ length items
  pub few : length items ≤ max_evidence_items
  pub apart : Apart (references items)
  pub fresh : (r : String) → In r (references items) → In r forbidden → ⊥
  pub in_time : All (InTime P now not_after not_before) items

-- A set of evidence that is accepted is returned as it is: it has between the minimum and ten items,
-- whose references are distinct and not forbidden, captured no more than five minutes after the
-- recording and inside the bounds that are given.
pub validate_evidence_set-ValidSet :
    (P : Platform) (items : List EvidenceItem) (now : ℤ) (minimum : ℕ)
    (not_after not_before : Option ℤ) (forbidden : List String) {evidence : List EvidenceItem}
    → validate_evidence_set P items now minimum not_after not_before forbidden ≡ ok evidence
    → (items ≡ evidence) × ValidSet P items now minimum not_after not_before forbidden
unfolding validate_evidence_set
validate_evidence_set-ValidSet P items now minimum not_after not_before forbidden h =
    let (count, h1) =
      >>-eq-ok
        (raise_if (ltb (length items) minimum || ltb max_evidence_items (length items))
          evidence_validation)
        _ h in
    let (once, h2) = >>-eq-ok (raise_if (has_repeat (references items)) evidence_validation) _ h1 in
    let (unused, h3) =
      >>-eq-ok
        (raise_if (any (λ r. any (λ f. f == r) forbidden) (references items)) evidence_validation) _
        h2 in
    let (captured, h4) = >>-eq-ok (check_captured P now not_after not_before items) _ h3 in
    let counted = raise_if-ok _ _ count in
    (
      ok_injective h4,
      record {
        enough = least (length items) counted;
        few = most (length items) counted;
        apart = apart (references items) (raise_if-ok _ _ once);
        fresh = λ r i j. cc (
          any-false (λ f. f == r) forbidden
              (any-false (λ s. any (λ f. f == s) forbidden) (references items)
                (raise_if-ok _ _ unused) i)
              j,
          (==_iff r r).1 refl,
        );
        in_time = in_time P now not_after not_before items captured;
      },
    )
  where
    least : (n : ℕ) → (ltb n minimum || ltb max_evidence_items n) ≡ false → minimum ≤ n
    least n q = ground arith

    most : (n : ℕ) → (ltb n minimum || ltb max_evidence_items n) ≡ false → n ≤ max_evidence_items
    most n q = ground arith
