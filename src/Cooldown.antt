-- ===== src/Cooldown.antt =====
-- internal/engine/cooldown.go: the time of the last alert of each key. A call is atomic under the
-- mutex; `now` is the clock as it is read inside the call.
pub mod Keys
pub mod Spacing
use rfguard.Common.Tests.{
  ℕ, zero, suc, ◌+◌, ◌/◌, ◌%◌, Bool, true, false, [], ◌∷◌, ◌++◌, Option, none, some, ltb,
  if◌then◌else◌,
}
use rfguard.Common.Text.{Text, text_eq}
use rfguard.Common.Int.{ℤ, pos, negsuc, leb_ℤ, ltb_ℤ}
use rfguard.Common.Maps.{Map, lookup, insert}
use rfguard.Common.Clock.{Time, Duration, sub_time}

pub record Cooldown : Type 0 where
  pub last : Map Text Time

unfoldable pub new_cooldown : Cooldown
new_cooldown = record { last = [] }

abbrev pub is_cooling : Time → Duration → Option Time → Bool
is_cooling now cooldown none = false
is_cooling now cooldown (some ts) = ltb_ℤ (sub_time now ts) cooldown

unfoldable pub allow_key : Cooldown → Text → Duration → Time → Cooldown × Bool
allow_key c key cooldown now =
    if leb_ℤ cooldown (pos 0)
    then (c, true)
    else if is_cooling now cooldown (lookup key c.last)
    then (c, false)
    else (record { last = insert key now c.last }, true)

-- `strconv.Itoa`, on fuel that exceeds the number.
unfoldable pub digits_of : ℕ → ℕ → Text
digits_of zero n = []
digits_of (suc fuel) n =
    let more = digits_of fuel (n / 10) in
    if ltb n 10 then (b'0' + n) ∷ [] else more ++ (b'0' + n % 10) ∷ []

unfoldable pub itoa : ℤ → Text
unfolding digits_of
itoa (pos n) = digits_of (suc n) n
itoa (negsuc n) = b'-' ∷ digits_of (suc (suc n)) (suc n)

unfoldable pub window_key : Text → ℤ → Text
unfolding itoa
window_key reader_id window_sec = reader_id ++ b'|' ∷ itoa window_sec

unfoldable pub allow : Cooldown → Text → ℤ → Duration → Time → Cooldown × Bool
unfolding window_key allow_key
allow c reader_id window_sec cooldown now =
    if leb_ℤ cooldown (pos 0)
    then (c, true)
    else allow_key c (window_key reader_id window_sec) cooldown now
