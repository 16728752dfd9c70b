-- ===== src/Jobs/Plans/Window.antt =====
-- The window that a postponement leaves (lifecycle.py's `_raise_not_before`) and what it means to
-- backend/app/optimizer/solver.py's `_clamp_window`.
use pashupatastra_sih.Prelude.{
  ℤ, pos, ◌+ℤ◌, ◌-ℤ◌, ltb_ℤ, max_ℤ, min_ℤ, +ℤ_parts, -ℤ_parts, ◌≡◌, String, false, arith,
}
use pashupatastra_sih.Jobs.State.{Job, unchanged}
use pashupatastra_sih.Jobs.Plans.Blocks.{without_placement, raise_not_before, withdrawn}
use pashupatastra_sih.Jobs.Plans.Human.{postpone_mutation, reject_mutation}
use pashupatastra_sih.Optimizer.Solver.{does_not_fit, clamp_window}

min-max : (h l : ℤ) → min_ℤ h (max_ℤ l h) ≡ h
unfolding min_ℤ max_ℤ
min-max h l = ground arith

max_zero : (n : ℤ) → ltb_ℤ n (pos 0) ≡ false → max_ℤ (pos 0) n ≡ n
unfolding max_ℤ
max_zero n h = ground arith

ltb-shift : (h d n : ℤ) → ltb_ℤ (h -ℤ d) n ≡ ltb_ℤ h (n +ℤ d)
ltb-shift h d n = ground (arith, +ℤ_parts n d, -ℤ_parts h d)

-- For a job that is postponed to a minute that is not negative: the time-window test with which an
-- optimization over the same horizon refuses a block holds of its block exactly if the work, started
-- at that minute, would end after the horizon.
pub postpone-fits :
    {F : Type 0} (j : Job F) (at_time reason : String) (not_before horizon : ℤ)
    → ltb_ℤ not_before (pos 0) ≡ false
    → does_not_fit horizon (postpone_mutation j at_time reason not_before horizon).block_candidate
      ≡ ltb_ℤ horizon (not_before +ℤ j.block_candidate.duration_minutes)
unfolding does_not_fit clamp_window postpone_mutation reject_mutation withdrawn unchanged
    raise_not_before without_placement
postpone-fits j at_time reason not_before horizon h =
    rw (min-max horizon j.block_candidate.latest_end_minute, max_zero not_before h)
      (ltb-shift horizon j.block_candidate.duration_minutes not_before)
