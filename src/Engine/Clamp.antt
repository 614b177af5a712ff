-- ===== src/Engine/Clamp.antt =====
-- `clampTimestamp`: an event that is too far from the clock is taken to happen now.
use rfguard.Common.Tests.{◌≡◌, Bool, true, not, ◌&&◌, ◌||◌, arith, if◌then◌else◌}
use rfguard.Common.Int.{pos, ltb_ℤ, leb_ℤ, int_eq, eqb_ℤ, ◌-ℤ◌}
use rfguard.Common.Clock.{Time, Duration, sub_time}

unfoldable pub clamp_timestamp : Time → Time → Duration → Duration → Time
clamp_timestamp ts now max_past max_future =
    if eqb_ℤ ts (pos 0)
    then now
    else if ltb_ℤ (pos 0) max_past && ltb_ℤ max_past (sub_time now ts)
    then now
    else if ltb_ℤ (pos 0) max_future && ltb_ℤ max_future (sub_time ts now)
    then now
    else ts

sub_time_self : (now : Time) → sub_time now now ≡ pos 0
unfolding sub_time ◌-ℤ◌
sub_time_self now = ground arith

-- No farther from the clock than the skews allow; a skew of 0 or less allows everything.
abbrev pub within_skew : Time → Time → Duration → Duration → Bool
within_skew ts now max_past max_future =
    (leb_ℤ max_past (pos 0) || leb_ℤ (sub_time now ts) max_past)
    && (leb_ℤ max_future (pos 0) || leb_ℤ (sub_time ts now) max_future)

-- A set timestamp that is within both skews stays as it is, any other becomes the present, and the
-- result is within both skews, so that clamping it again changes nothing.
pub clamp_timestamp_lem :
    (ts now : Time) (max_past max_future : Duration)
    → let clamped = clamp_timestamp ts now max_past max_future in
      (clamped
        ≡ (if not (eqb_ℤ ts (pos 0)) && within_skew ts now max_past max_future then ts else now))
      × (within_skew clamped now max_past max_future ≡ true)
      × (clamp_timestamp clamped now max_past max_future ≡ clamped)
unfolding clamp_timestamp
clamp_timestamp_lem ts now max_past max_future =
    (ground arith, ground (arith, sub_time_self now), ground (arith, sub_time_self now))
