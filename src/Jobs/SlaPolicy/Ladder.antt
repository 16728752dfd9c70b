-- ===== src/Jobs/SlaPolicy/Ladder.antt =====
-- The escalation levels of sla_policy.py's `timing`.
use pashupatastra_sih.Prelude.{
  ℕ, suc, ◌≤◌, ℤ, pos, ◌+ℤ◌, ◌≤ℤ◌, ◌<ℤ◌, +ℤ_parts, leb_ℤ, ltb, Bool, true, false, not, ◌&&◌, List,
  [], ◌∷◌, ◌++◌, ◌≡◌, refl, subst, ap, length, All, inl, inr, Bool-cases, not-eq_false, arith,
}
use pashupatastra_sih.Prelude.Blank.{is_blank}
use pashupatastra_sih.Result.{ok, Holds-ok, Holds->>, invalid_sla_policy}
use pashupatastra_sih.Python.{Durations}
use pashupatastra_sih.Jobs.SlaPolicy.{
  SlaPolicy, is_due_soon, is_past_due, increasing, starts_early, sla_policy, level_of, timing_at,
  max_escalation_steps, occurs_in, assumed_version_marker,
}

-- What is relied on of floats that are numbers: the order is total, and multiplying a positive
-- duration and rounding the product keeps it; multiplying by one changes nothing.
pub record IsDurations {F : Type 0} (D : Durations F) : Type 0 where
  pub lt_le : (x y : F) → D.lt x y ≡ true → D.le x y ≡ true
  pub total : (x y : F) → D.lt x y ≡ false → D.le y x ≡ true
  pub times_le : (s : ℤ) (x y : F) → pos 0 <ℤ s → D.le x y ≡ true → D.times s x ≤ℤ D.times s y
  pub times_one : (s : ℤ) → D.times s D.one ≡ s

-- A step of the ladder is reached.
abbrev pub reached : {F : Type 0} → Durations F → ℤ → ℤ → ℤ → F → Bool
reached D started_at evaluated_at sla step = leb_ℤ (started_at +ℤ D.times sla step) evaluated_at

-- The level is the number of the steps reached, which come before all others.
pub record Ladder {F : Type 0} (D : Durations F) (started_at evaluated_at sla : ℤ) (steps : List F)
    (level : ℕ) : Type 0 where
  pub below : List F
  pub above : List F
  pub split : steps ≡ below ++ above
  pub counted : length below ≡ level
  pub all_below : All (λ x. reached D started_at evaluated_at sla x ≡ true) below
  pub none_above : All (λ x. reached D started_at evaluated_at sla x ≡ false) above

module _ {F : Type 0} (D : Durations F) (laws : IsDurations D) (started_at evaluated_at sla : ℤ)
    (positive : pos 0 <ℤ sla) where
  later_unreached :
      (x y : F)
      → D.le x y ≡ true
      → reached D started_at evaluated_at sla x ≡ false
      → reached D started_at evaluated_at sla y ≡ false
  later_unreached x y l h = ground (
    arith,
    laws.times_le sla x y positive l,
    +ℤ_parts started_at (D.times sla x),
    +ℤ_parts started_at (D.times sla y),
  )

  rest_unreached :
      (x : F) (xs : List F)
      → increasing D (x ∷ xs) ≡ true
      → reached D started_at evaluated_at sla x ≡ false
      → All (λ y. reached D started_at evaluated_at sla y ≡ false) xs
  unfolding increasing
  rest_unreached x [] i h = tt
  rest_unreached x (y ∷ ys) i h =
      let (a, b) = both (D.lt x y) (increasing D (y ∷ ys)) i in
      let n = later_unreached x y (laws.lt_le x y a) h in (n, rest_unreached y ys b n)
    where
      both : (a b : Bool) → (a && b) ≡ true → (a ≡ true) × (b ≡ true)
      both a b q = (ground arith, ground arith)

  none-level :
      (xs : List F)
      → All (λ y. reached D started_at evaluated_at sla y ≡ false) xs
      → level_of D started_at evaluated_at sla xs ≡ 0
  unfolding level_of
  none-level [] a = refl
  none-level (x ∷ xs) a = rw a.0 (none-level xs a.1)

  level-Ladder :
      (xs : List F)
      → increasing D xs ≡ true
      → Ladder D started_at evaluated_at sla xs (level_of D started_at evaluated_at sla xs)
  unfolding level_of increasing
  level-Ladder [] i = record {
    below = [];
    above = [];
    split = refl;
    counted = refl;
    all_below = tt;
    none_above = tt;
  }
  level-Ladder (x ∷ xs) i = elim (Bool-cases (reached D started_at evaluated_at sla x)) [
    | inl t ↦
        let l = level-Ladder xs (tail xs i) in
        rw t (record {
          below = x ∷ l.below;
          above = l.above;
          split = ap (λ ys. x ∷ ys) l.split;
          counted = ap suc l.counted;
          all_below = (t, l.all_below);
          none_above = l.none_above;
        })
    | inr f ↦
        let rest = rest_unreached x xs i f in
        rw (f, none-level xs rest)
          (record {
            below = [];
            above = x ∷ xs;
            split = refl;
            counted = refl;
            all_below = tt;
            none_above = (f, rest);
          })
  ]
    where
      tail : (ys : List F) → increasing D (x ∷ ys) ≡ true → increasing D ys ≡ true
      tail [] q = refl
      tail (y ∷ ys) q = ground arith

  -- A reached level means that the deadline has passed.
  level-past_due :
      (steps : List F)
      → increasing D steps ≡ true
      → starts_early D steps ≡ false
      → 1 ≤ level_of D started_at evaluated_at sla steps
      → leb_ℤ (started_at +ℤ sla) evaluated_at ≡ true
  unfolding level_of
  level-past_due [] i e l = ground (arith, l)
  level-past_due (x ∷ xs) i e l = elim (Bool-cases (reached D started_at evaluated_at sla x)) [
    | inl t ↦
        let at_least : sla ≤ℤ D.times sla x =
          subst (λ v. v ≤ℤ D.times sla x) (laws.times_one sla)
            (laws.times_le sla D.one x positive (laws.total x D.one e)) in
        due_by (D.times sla x) at_least t
    | inr f ↦ let none = none-level (x ∷ xs) (f, rest_unreached x xs i f) in ground (arith, none, l)
  ]
    where
      due_by :
          (v : ℤ)
          → sla ≤ℤ v
          → leb_ℤ (started_at +ℤ v) evaluated_at ≡ true
          → leb_ℤ (started_at +ℤ sla) evaluated_at ≡ true
      due_by v a t = ground (arith, +ℤ_parts started_at v, +ℤ_parts started_at sla)

  past_due-due_soon :
      (fraction : F)
      → D.le fraction D.one ≡ true
      → leb_ℤ (started_at +ℤ sla) evaluated_at ≡ true
      → leb_ℤ (started_at +ℤ D.times sla fraction) evaluated_at ≡ true
  past_due-due_soon fraction s d =
      let at_most : D.times sla fraction ≤ℤ sla =
        subst (λ v. D.times sla fraction ≤ℤ v) (laws.times_one sla)
          (laws.times_le sla fraction D.one positive s) in
      due_by (D.times sla fraction) at_most
    where
      due_by : (v : ℤ) → v ≤ℤ sla → leb_ℤ (started_at +ℤ v) evaluated_at ≡ true
      due_by v a = ground (arith, +ℤ_parts started_at v, +ℤ_parts started_at sla)

-- The levels only rise: at a later moment the level is not lower.
pub level_of-monotone :
    {F : Type 0} (D : Durations F) (started_at evaluated_at later sla : ℤ) (steps : List F)
    → evaluated_at ≤ℤ later
    → level_of D started_at evaluated_at sla steps ≤ level_of D started_at later sla steps
unfolding level_of
level_of-monotone D started_at evaluated_at later sla [] h = omega arith
level_of-monotone D started_at evaluated_at later sla (x ∷ xs) h =
    ground (arith, level_of-monotone D started_at evaluated_at later sla xs h)

-- What the constructor has checked of the numbers that `timing` reads.
pub record Numbers {F : Type 0} (D : Durations F) (p : SlaPolicy F) : Type 0 where
  pub approval : pos 0 <ℤ p.approval_sla
  pub execution : pos 0 <ℤ p.execution_start_sla
  pub completion : pos 0 <ℤ p.completion_sla
  soon : D.le p.due_soon_fraction D.one ≡ true
  few : length p.escalation_multipliers ≤ max_escalation_steps
  some_step : 1 ≤ length p.escalation_multipliers
  not_early : starts_early D p.escalation_multipliers ≡ false
  rising : increasing D p.escalation_multipliers ≡ true

pub policy-Numbers :
    {F : Type 0} (D : Durations F) (q : SlaPolicy F) {p : SlaPolicy F}
    → sla_policy D q ≡ ok p
    → Numbers D p
unfolding sla_policy
policy-Numbers D q h =
    let Q = Numbers D in
    Holds-ok Q (sla_policy D q)
      (Holds->> Q (is_blank q.version) invalid_sla_policy _ λ _.
        Holds->> Q (not q.assumed) invalid_sla_policy _ λ _.
          Holds->> Q (not (occurs_in assumed_version_marker (D.lower q.version))) invalid_sla_policy
            _
            λ _. Holds->> Q (leb_ℤ q.approval_sla (pos 0)) invalid_sla_policy _ λ a.
              Holds->> Q (leb_ℤ q.execution_start_sla (pos 0)) invalid_sla_policy _ λ e0.
                Holds->> Q (leb_ℤ q.completion_sla (pos 0)) invalid_sla_policy _ λ c.
                  Holds->> Q
                    (not (D.lt D.nought q.due_soon_fraction && D.le q.due_soon_fraction D.one))
                    invalid_sla_policy _
                    λ s.
                      Holds->> Q (ltb (length q.escalation_multipliers) 1) invalid_sla_policy _ λ n.
                        Holds->> Q (ltb max_escalation_steps (length q.escalation_multipliers))
                          invalid_sla_policy _
                          λ f.
                            Holds->> Q (starts_early D q.escalation_multipliers) invalid_sla_policy
                              _
                              λ e.
                                Holds->> Q (not (increasing D q.escalation_multipliers))
                                  invalid_sla_policy _
                                  λ i. record {
                                    approval = positive q.approval_sla a;
                                    execution = positive q.execution_start_sla e0;
                                    completion = positive q.completion_sla c;
                                    soon =
                                        second (D.lt D.nought q.due_soon_fraction)
                                          (D.le q.due_soon_fraction D.one) s;
                                    few = le (length q.escalation_multipliers) 3 f;
                                    some_step = le 1 (length q.escalation_multipliers) n;
                                    not_early = e;
                                    rising = not-eq_false _ i;
                                  })
      h
  where
    positive : (sla : ℤ) → leb_ℤ sla (pos 0) ≡ false → pos 0 <ℤ sla
    positive sla q = ground (arith, q)

    second : (a b : Bool) → not (a && b) ≡ false → b ≡ true
    second a b q = ground arith

    le : (a b : ℕ) → ltb b a ≡ false → a ≤ b
    le a b q = ground arith

level-length :
    {F : Type 0} (D : Durations F) (started_at evaluated_at sla : ℤ) (steps : List F)
    → level_of D started_at evaluated_at sla steps ≤ length steps
unfolding level_of
level-length D started_at evaluated_at sla [] = omega arith
level-length D started_at evaluated_at sla (x ∷ xs) =
    ground (arith, level-length D started_at evaluated_at sla xs)

-- The timing of a policy that was accepted, for an allowance that is positive: the level is at most
-- three and counts the steps reached, all of which come before the others; a clock that has reached
-- a level is past due, and one that is past due is due soon.
pub timing_at-Ladder :
    {F : Type 0} (D : Durations F) (laws : IsDurations D) (q : SlaPolicy F) {p : SlaPolicy F}
    (sla started_at evaluated_at : ℤ)
    → sla_policy D q ≡ ok p
    → pos 0 <ℤ sla
    → let t = timing_at D p sla started_at evaluated_at in
      (t.escalation_level ≤ 3)
      × Ladder D started_at evaluated_at sla p.escalation_multipliers t.escalation_level
      × (1 ≤ t.escalation_level → is_past_due t ≡ true)
      × (is_past_due t ≡ true → is_due_soon t ≡ true)
unfolding timing_at
timing_at-Ladder D laws q {p} sla started_at evaluated_at h positive =
    let n = policy-Numbers D q h in
    let size = level-length D started_at evaluated_at sla p.escalation_multipliers in
    (
      omega (arith, size, n.few),
      level-Ladder D laws started_at evaluated_at sla positive p.escalation_multipliers n.rising,
      level-past_due D laws started_at evaluated_at sla positive p.escalation_multipliers n.rising
          n.not_early,
      past_due-due_soon D laws started_at evaluated_at sla positive p.due_soon_fraction n.soon,
    )
