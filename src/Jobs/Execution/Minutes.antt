-- ===== src/Jobs/Execution/Minutes.antt =====
-- The minutes that execution.py's `observed_minute` gives to moments.
use pashupatastra_sih.Prelude.{
  ℕ, String, ◌+◌, ◌<◌, ℤ, pos, negsuc, pos_part, neg_part, ◌+ℤ◌, ◌-ℤ◌, ◌≤ℤ◌, ◌<ℤ◌, +ℤ_parts,
  -ℤ_parts, scale, floor_div, floor_mod, ltb, leb_ℤ, ltb_ℤ, ◌≡◌, refl, true, false, arith, ◌||◌,
  Bool, ◌&&◌, if◌then◌else◌,
}
use Prim.Native.Nat.{◌*◌, ◌/◌}
use pashupatastra_sih.Result.{ok}
use pashupatastra_sih.Python.{Platform}
use pashupatastra_sih.Data.HorizonAnchor.{
  Aware, delta, parse_horizon_start, horizon_relative_minutes, micros_per_minute, micros_per_day,
  minutes_per_day,
}
use pashupatastra_sih.Jobs.Execution.Time.{minute_after, observed_minute}

scale_parts :
    (n : ℕ) (a : ℤ) → pos_part (scale n a) + n * neg_part a ≡ neg_part (scale n a) + n * pos_part a
unfolding scale
scale_parts n a = ground arith

minute-split :
    (a : ℤ)
    → (pos_part a + 60000000 * neg_part (floor_div a 60000000)
        ≡ neg_part a + 60000000 * pos_part (floor_div a 60000000) + floor_mod a 60000000)
      × (floor_mod a 60000000 < 60000000)
unfolding floor_div floor_mod
minute-split (pos a) = (omega arith, omega arith)
minute-split (negsuc a) = (omega arith, omega arith)

day-split :
    (a : ℤ)
    → (pos_part a + 86400000000 * neg_part (floor_div a 86400000000)
        ≡ neg_part a + 86400000000 * pos_part (floor_div a 86400000000) + floor_mod a 86400000000)
      × (floor_mod a 86400000000 < 86400000000)
unfolding floor_div floor_mod
day-split (pos a) = (omega arith, omega arith)
day-split (negsuc a) = (omega arith, omega arith)

-- The clock minute that `observed_minute` asks about.
abbrev clock_of : ℤ → ℕ
clock_of local = floor_mod local micros_per_day / micros_per_minute

abbrev delta_of : ℤ → Aware → ℤ
delta_of moment a =
    let local = moment +ℤ a.offset in
    delta (floor_div local micros_per_day) (pos (clock_of local)) (pos 0) a

-- The horizon's start is a whole minute of its own clock.
abbrev pub IsOnMinute : Aware → Type 0
IsOnMinute a = floor_mod (a.micros +ℤ a.offset) micros_per_minute ≡ 0

clock-fits :
    (local : ℤ)
    → (ltb_ℤ (pos (clock_of local)) (pos 0) || leb_ℤ (pos minutes_per_day) (pos (clock_of local)))
      ≡ false
clock-fits local = ground (arith, day-split local)

delta-parts :
    (moment : ℤ) (a : Aware)
    → let d = delta_of moment a in
      let local = moment +ℤ a.offset in
      let x = floor_div local 86400000000 in
      pos_part d + 86400000000 * neg_part x + pos_part a.offset + pos_part a.micros
      ≡ neg_part d
        + 86400000000 * pos_part x
        + 60000000 * clock_of local
        + neg_part a.offset
        + neg_part a.micros
delta-parts moment a =
    let local = moment +ℤ a.offset in
    let x = floor_div local 86400000000 in
    let minutes = pos (clock_of local) +ℤ scale 1440 (pos 0) in
    let midnight = scale 86400000000 x -ℤ a.offset in
    omega (
      arith,
      scale_parts 86400000000 x,
      scale_parts 1440 (pos 0),
      scale_parts 60000000 minutes,
      +ℤ_parts (pos (clock_of local)) (scale 1440 (pos 0)),
      -ℤ_parts (scale 86400000000 x) a.offset,
      +ℤ_parts midnight (scale 60000000 minutes),
      -ℤ_parts (midnight +ℤ scale 60000000 minutes) a.micros,
    )

delta_whole : (moment : ℤ) (a : Aware) → IsOnMinute a → floor_mod (delta_of moment a) 60000000 ≡ 0
delta_whole moment a h =
    let local = moment +ℤ a.offset in
    omega (
      arith,
      delta-parts moment a,
      minute-split (delta_of moment a),
      minute-split (a.micros +ℤ a.offset),
      +ℤ_parts a.micros a.offset,
    )

-- The moment is the horizon's start, the floor's minutes and the seconds that the clock shows.
moment-split :
    (moment : ℤ) (a : Aware)
    → IsOnMinute a
    → let m = floor_div (delta_of moment a) 60000000 in
      pos_part moment + neg_part a.micros + 60000000 * neg_part m
      ≡ neg_part moment
        + pos_part a.micros
        + 60000000 * pos_part m
        + floor_mod (moment +ℤ a.offset) 60000000
moment-split moment a h =
    let local = moment +ℤ a.offset in
    omega (
      arith,
      delta-parts moment a,
      delta_whole moment a h,
      minute-split (delta_of moment a),
      day-split local,
      minute-split local,
      +ℤ_parts moment a.offset,
      minute-split (a.micros +ℤ a.offset),
      +ℤ_parts a.micros a.offset,
    )

converted :
    (moment : ℤ) (a : Aware)
    → IsOnMinute a
    → horizon_relative_minutes
        (floor_div (moment +ℤ a.offset) micros_per_day)
        (pos (clock_of (moment +ℤ a.offset)))
        (pos 0)
        a
      ≡ ok (floor_div (delta_of moment a) micros_per_minute)
unfolding horizon_relative_minutes
converted moment a h = rw (clock-fits (moment +ℤ a.offset), delta_whole moment a h) refl

minute-after :
    (moment : ℤ) (a : Aware) (ceil : Bool)
    → IsOnMinute a
    → let m = floor_div (delta_of moment a) 60000000 in
      minute_after moment a ceil
      ≡ ok (if ceil && ltb 0 (floor_mod (moment +ℤ a.offset) 60000000) then m +ℤ pos 1 else m)
unfolding minute_after
minute-after moment a ceil h = rw (converted moment a h) refl

-- Where the horizon starts on a whole minute, the minute of an actual start is the last whole minute
-- of the horizon that is not after it.
pub observed_minute-floor :
    (P : Platform) (horizon_start : String) (moment : ℤ) (a : Aware)
    → parse_horizon_start P horizon_start ≡ ok a
    → IsOnMinute a
    → (m : ℤ) × (observed_minute P moment horizon_start false ≡ ok m)
      × (a.micros +ℤ scale 60000000 m ≤ℤ moment)
      × (moment <ℤ a.micros +ℤ scale 60000000 (m +ℤ pos 1))
unfolding observed_minute
observed_minute-floor P horizon_start moment a e h =
    let m = floor_div (delta_of moment a) 60000000 in
    (
      m,
      rw e (minute-after moment a false h),
      omega (
        arith,
        moment-split moment a h,
        scale_parts 60000000 m,
        +ℤ_parts a.micros (scale 60000000 m),
      ),
      omega (
        arith,
        moment-split moment a h,
        minute-split (moment +ℤ a.offset),
        +ℤ_parts m (pos 1),
        scale_parts 60000000 (m +ℤ pos 1),
        +ℤ_parts a.micros (scale 60000000 (m +ℤ pos 1)),
      ),
    )

ceil-bounds :
    (moment : ℤ) (a : Aware)
    → IsOnMinute a
    → (b : Bool) → ltb 0 (floor_mod (moment +ℤ a.offset) 60000000) ≡ b
    → let m = floor_div (delta_of moment a) 60000000 in
      let r = (if b then m +ℤ pos 1 else m) in
      (moment ≤ℤ a.micros +ℤ scale 60000000 r)
      × (a.micros +ℤ scale 60000000 r <ℤ moment +ℤ pos 60000000)
ceil-bounds moment a h true t =
    let m = floor_div (delta_of moment a) 60000000 in
    let split = moment-split moment a h in
    let seconds = minute-split (moment +ℤ a.offset) in
    let next = +ℤ_parts m (pos 1) in
    let scaled = scale_parts 60000000 (m +ℤ pos 1) in
    let sum = +ℤ_parts a.micros (scale 60000000 (m +ℤ pos 1)) in
    let later = +ℤ_parts moment (pos 60000000) in
    (
      omega (arith, split, seconds, next, scaled, sum, later),
      ground (arith, split, seconds, next, scaled, sum, later),
    )
ceil-bounds moment a h false t =
    let m = floor_div (delta_of moment a) 60000000 in
    let split = moment-split moment a h in
    let scaled = scale_parts 60000000 m in
    let sum = +ℤ_parts a.micros (scale 60000000 m) in
    let later = +ℤ_parts moment (pos 60000000) in
    (ground (arith, split, scaled, sum, later), ground (arith, split, scaled, sum, later))

-- Where the horizon starts on a whole minute, the minute of an actual end is the first whole minute
-- of the horizon that is not before it.
pub observed_minute-ceil :
    (P : Platform) (horizon_start : String) (moment : ℤ) (a : Aware)
    → parse_horizon_start P horizon_start ≡ ok a
    → IsOnMinute a
    → (m : ℤ) × (observed_minute P moment horizon_start true ≡ ok m)
      × (moment ≤ℤ a.micros +ℤ scale 60000000 m)
      × (a.micros +ℤ scale 60000000 m <ℤ moment +ℤ pos 60000000)
unfolding observed_minute
observed_minute-ceil P horizon_start moment a e h =
    let m = floor_div (delta_of moment a) 60000000 in
    let b = ltb 0 (floor_mod (moment +ℤ a.offset) 60000000) in
    let c = ceil-bounds moment a h b refl in
    (if b then m +ℤ pos 1 else m, rw e (minute-after moment a true h), c.0, c.1)
