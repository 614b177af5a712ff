-- ===== src/Common/Clock.antt =====
-- `time.Time` and `time.Duration`: nanoseconds. An instant counts from the zero `Time`, so that
-- `IsZero` is a test for 0; a duration is an `int64`, and `Sub` saturates.
use rfguard.Common.Tests.{ℕ, ◌≡◌, Bool, arith, if◌then◌else◌}
use rfguard.Common.Int.{ℤ, pos, negsuc, ◌-ℤ◌, ◌≤ℤ◌, ltb_ℤ, max_int, quot, rem}
use rfguard.Common.Float.{Float}

abbrev pub Time : Type 0
Time = ℤ

abbrev pub Duration : Type 0
Duration = ℤ

-- `time.Second`.
abbrev pub second : ℕ
second = 1_000_000_000

unfoldable pub saturate : ℤ → ℤ
saturate z =
    if ltb_ℤ (pos max_int) z
    then pos max_int
    else if ltb_ℤ z (negsuc max_int)
    then negsuc max_int
    else z

-- `t.Sub(u)`.
unfoldable pub sub_time : Time → Time → Duration
unfolding saturate
sub_time t u = saturate (t -ℤ u)

-- `t.Before(u)`.
abbrev pub before : Time → Time → Bool
before t u = ltb_ℤ t u

-- `d.Seconds()`.
unfoldable pub seconds : {F : Type 0} ⦃d : Float F⦄ → Duration → F
seconds ⦃d⦄ t =
    d.add (d.of_int (quot t second)) (d.div (d.of_int (rem t second)) (d.of_int (pos second)))

-- A difference within the range of a duration is exact.
pub sub_time-exact :
    (t u : Time) → (t -ℤ u) ≤ℤ pos max_int → negsuc max_int ≤ℤ (t -ℤ u) → sub_time t u ≡ t -ℤ u
unfolding sub_time
sub_time-exact t u h k = ground arith
