-- ===== src/Clock.antt =====
-- Go's time.Time and time.Duration: nanoseconds as integers. A Time counts from the zero Time, so
-- `IsZero` is equality with 0; a Duration is an int64, and `Sub` saturates as package time says.
-- Wrap-around of `Add` is not modelled: it needs instants 292 years past what a program meets.
use taplytix.Prelude.{ℕ, ◌-◌, ◌^◌, ◌≡◌, Bool, ◌&&◌, arith, if◌then◌else◌}
use taplytix.Prelude.Int.{
  ℤ, pos, negsuc, ltb_ℤ, leb_ℤ, ◌+ℤ◌, ◌-ℤ◌, ◌≤ℤ◌, +ℤ_parts, -ℤ_parts, eq_of_parts,
}

abbrev pub Time : Type 0
Time = ℤ

abbrev pub Duration : Type 0
Duration = ℤ

abbrev pub zero_time : Time
zero_time = pos 0

abbrev pub second : ℕ
second = 1000000000

abbrev pub is_zero : Time → Bool
is_zero t = leb_ℤ t (pos 0) && leb_ℤ (pos 0) t

-- `t.After(u)`, `t.Before(u)`
abbrev pub after : Time → Time → Bool
after t u = ltb_ℤ u t

abbrev pub before : Time → Time → Bool
before t u = ltb_ℤ t u

abbrev pub max_duration : ℤ
max_duration = pos (2 ^ 63 - 1)

abbrev pub min_duration : ℤ
min_duration = negsuc (2 ^ 63 - 1)

-- `t.Add(d)`
unfoldable pub add_time : Time → Duration → Time
unfolding ◌+ℤ◌
add_time t d = t +ℤ d

abbrev clamp_duration : ℤ → Duration
clamp_duration d =
    if ltb_ℤ max_duration d then max_duration else if ltb_ℤ d min_duration then min_duration else d

-- `t.Sub(u)`
unfoldable pub sub_time : Time → Time → Duration
unfolding ◌-ℤ◌
sub_time t u = clamp_duration (t -ℤ u)

-- The saturation does nothing to a difference that fits an int64.
pub sub_time_exact :
    (t u : Time) → min_duration ≤ℤ t -ℤ u → t -ℤ u ≤ℤ max_duration → sub_time t u ≡ t -ℤ u
unfolding sub_time ◌-ℤ◌
sub_time_exact t u h k = ground arith

-- A later instant is reached from an earlier one by their difference.
pub add-sub : (t u : Time) → add_time u (t -ℤ u) ≡ t
unfolding add_time
add-sub t u = omega (arith, +ℤ_parts, -ℤ_parts, eq_of_parts)
