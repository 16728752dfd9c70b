-- ===== src/Examples/Clocks.antt =====
-- Response clocks of one policy.
use pashupatastra_sih.Prelude.{
  ℕ, ◌≤◌, ℤ, pos, negsuc, ◌≤ℤ◌, ◌<ℤ◌, scale, leb, ltb, true, [], ◌∷◌, ◌≡◌, refl, arith,
}
use native.Mathlib.Nat.{mul-le-mul_right}
use pashupatastra_sih.Prelude.Blank.{is_blank, is_space}
use pashupatastra_sih.Result.{ok}
use pashupatastra_sih.Python.{Durations}
use pashupatastra_sih.Jobs.SlaPolicy.{
  SlaPolicy, is_due_soon, is_past_due, increasing, sla_policy, level_of, timing_at, starts_with,
  occurs_in,
}
use pashupatastra_sih.Jobs.SlaPolicy.Ladder.{
  IsDurations, Ladder, level_of-monotone, timing_at-Ladder,
}

-- Whole numbers as the multipliers.
abbrev pub whole : Durations ℕ
whole = record {
  lt = λ x y. ltb x y;
  le = λ x y. leb x y;
  nought = 0;
  one = 1;
  times = λ s n. scale n s;
  lower = λ s. s;
}

scale_le : (s : ℤ) (x y : ℕ) → pos 0 <ℤ s → leb x y ≡ true → scale x s ≤ℤ scale y s
unfolding scale
scale_le (pos m) x y p h =
    let ordered : x ≤ y = ground (arith, h) in ground (arith, mul-le-mul_right m ordered)
scale_le (negsuc m) x y p h = let wrong : 1 ≤ 0 = omega (arith, p) in omega (arith, wrong)

pub whole-laws : IsDurations whole
unfolding scale
whole-laws = record {
  lt_le = λ x y h. ground (arith, h);
  total = λ x y h. ground (arith, h);
  times_le = scale_le;
  times_one = λ s. one_time s;
}
  where
    one_time : (s : ℤ) → scale 1 s ≡ s
    one_time (pos n) = ground arith
    one_time (negsuc n) = ground arith

abbrev pub demo_policy : SlaPolicy ℕ
demo_policy = record {
  version = "sla-assumed-1";
  approval_sla = pos 120;
  execution_start_sla = pos 60;
  completion_sla = pos 240;
  due_soon_fraction = 1;
  escalation_multipliers = 1 ∷ 2 ∷ 4 ∷ [];
  assumed = true;
}

pub demo-accepted : sla_policy whole demo_policy ≡ ok demo_policy
unfolding sla_policy is_blank is_space occurs_in starts_with increasing
demo-accepted = refl

timing_at-Ladder_example :
    let t = timing_at whole demo_policy (pos 120) (pos 0) (pos 250) in
    (t.escalation_level ≤ 3)
    × Ladder whole (pos 0) (pos 250) (pos 120) (1 ∷ 2 ∷ 4 ∷ []) t.escalation_level
    × (1 ≤ t.escalation_level → is_past_due t ≡ true)
    × (is_past_due t ≡ true → is_due_soon t ≡ true)
timing_at-Ladder_example =
    timing_at-Ladder whole whole-laws demo_policy (pos 120) (pos 0) (pos 250) demo-accepted
      (omega arith)

level_of-monotone_example :
    level_of whole (pos 0) (pos 130) (pos 120) (1 ∷ 2 ∷ 4 ∷ [])
    ≤ level_of whole (pos 0) (pos 250) (pos 120) (1 ∷ 2 ∷ 4 ∷ [])
level_of-monotone_example =
    level_of-monotone whole (pos 0) (pos 130) (pos 250) (pos 120) (1 ∷ 2 ∷ 4 ∷ []) (omega arith)
