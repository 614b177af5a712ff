-- ===== src/Window.antt =====
-- internal/engine/window.go: the sliding window of one reader, with counters that `add` and `evict`
-- keep up to date. A `uidCounts` entry exists while its UID is in the window.
pub mod Live
pub mod Counters
pub mod Evict
pub mod Reference
pub mod Ratios
pub mod Order
pub mod Feed
use rfguard.Common.Tests.{
  ℕ, suc, ◌*◌, ◌&&◌, List, [], ◌∷◌, ◌++◌, Option, none, some, leb, ltb, if◌then◌else◌,
}
use rfguard.Common.Eq.{◌==◌}
use rfguard.Common.Lists.{length, drop}
use rfguard.Common.Text.{Text, is_empty, text_eq}
use rfguard.Common.Int.{int_eq, ℤ, pos, inc_int, dec_int, ◌-ℤ◌, leb_ℤ, ltb_ℤ}
use rfguard.Common.Maps.{Map, lookup, insert, delete}
use rfguard.Common.Clock.{Time, Duration, before, sub_time, seconds}
use rfguard.Common.Float.{Float, zero_f}
use rfguard.Model.{Result, is_failure, WindowMetrics}

pub record EventEntry : Type 0 where
  pub timestamp : Time
  pub uid : Text
  pub result : Result

-- `head` is an index into `events`: only `evict` moves it, and never past the end.
pub record WindowState : Type 0 where
  pub duration : Duration
  pub events : List EventEntry
  pub head : ℕ
  pub attempts : ℤ
  pub failures : ℤ
  pub uid_counts : Map Text ℤ

unfoldable pub new_window_state : Duration → WindowState
new_window_state duration = record {
  duration = duration;
  events = [];
  head = 0;
  attempts = pos 0;
  failures = pos 0;
  uid_counts = [];
}

-- `m[k]`, which is 0 for a missing key.
abbrev pub or_zero : Option ℤ → ℤ
or_zero none = pos 0
or_zero (some n) = n

abbrev pub count_up : Result → ℤ → ℤ
count_up r n = if is_failure r then inc_int n else n

abbrev pub count_down : Result → ℤ → ℤ
count_down r n = if is_failure r then dec_int n else n

unfoldable pub add_uid : Text → Map Text ℤ → Map Text ℤ
add_uid uid counts =
    if is_empty uid then counts else insert uid (inc_int (or_zero (lookup uid counts))) counts

unfoldable pub drop_uid : Text → Map Text ℤ → Map Text ℤ
drop_uid uid counts =
    if is_empty uid
    then counts
    else let count = or_zero (lookup uid counts) in
      if leb_ℤ count (pos 1) then delete uid counts else insert uid (dec_int count) counts

unfoldable pub add : WindowState → EventEntry → WindowState
add w ev = record w {
  events = w.events ++ ev ∷ [];
  attempts = inc_int w.attempts;
  failures = count_up ev.result w.failures;
  uid_counts = add_uid ev.uid w.uid_counts;
}

-- The body of the loop in `Evict`, for an event that is older than the cutoff.
unfoldable pub forget : WindowState → EventEntry → WindowState
forget w ev = record w {
  head = suc w.head;
  attempts = dec_int w.attempts;
  failures = count_down ev.result w.failures;
  uid_counts = drop_uid ev.uid w.uid_counts;
}

-- The loop in `Evict`, over the events from `head` on.
unfoldable pub evict_loop : Time → List EventEntry → WindowState → WindowState
evict_loop cutoff [] w = w
evict_loop cutoff (ev ∷ rest) w =
    let later = evict_loop cutoff rest (forget w ev) in
    if before ev.timestamp cutoff then later else w

-- The end of `Evict`: the evicted half of the slice is dropped.
unfoldable pub compact : WindowState → WindowState
compact w =
    if ltb 0 w.head && leb (length w.events) (w.head * 2)
    then record w { events = drop w.head w.events; head = 0 }
    else w

unfoldable pub evict : WindowState → Time → WindowState
evict w cutoff = compact (evict_loop cutoff (drop w.head w.events) w)

module _ {F : Type 0} ⦃d : Float F⦄ where
  -- The loop in `varianceDelta`, Welford's method: `n`, `mean` and `m2` so far, and the timestamp
  -- before.
  unfoldable pub variance_loop : ℤ → F → F → Time → List EventEntry → F
  variance_loop n mean m2 prev [] = if n == pos 0 then zero_f else d.div m2 (d.of_int n)
  variance_loop n mean m2 prev (ev ∷ rest) =
      let gap : F = seconds (sub_time ev.timestamp prev) in
      let delta = if d.lt gap zero_f then zero_f else gap in
      let diff = d.sub delta mean in
      let next_mean = d.add mean (d.div diff (d.of_int (inc_int n))) in
      variance_loop (inc_int n) next_mean (d.add m2 (d.mul diff (d.sub delta next_mean)))
        ev.timestamp rest

  -- `varianceDelta` of the events from `start` on.
  pub variance_from : List EventEntry → F
  variance_from [] = zero_f
  variance_from (ev ∷ rest) = variance_loop (pos 0) zero_f zero_f ev.timestamp rest

  unfoldable pub variance_delta : List EventEntry → ℕ → F
  unfolding variance_from
  variance_delta events start = variance_from (drop start events)

  unfoldable pub metrics : WindowState → WindowMetrics F
  metrics w =
      let busy = ltb_ℤ (pos 0) w.attempts in
      record {
        window_sec = d.to_int (seconds w.duration);
        attempts = w.attempts;
        failures = w.failures;
        aps = if busy then d.div (d.of_int w.attempts) (seconds w.duration) else zero_f;
        fr = if busy then d.div (d.of_int w.failures) (d.of_int w.attempts) else zero_f;
        uds =
            if busy
            then d.div (d.of_int (pos (length w.uid_counts))) (d.of_int w.attempts)
            else zero_f;
        tv = variance_delta w.events w.head;
      }

-- What `ProcessEvent` does with each window: make room for the event, and add it.
unfoldable pub observe : WindowState → EventEntry → WindowState
observe w ev = add (evict w (ev.timestamp -ℤ w.duration)) ev

unfoldable pub feed : WindowState → List EventEntry → WindowState
feed w [] = w
feed w (ev ∷ evs) = feed (observe w ev) evs
