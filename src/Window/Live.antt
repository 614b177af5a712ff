-- ===== src/Window/Live.antt =====
-- The events that a window holds, as a list, and what its counters count.
use rfguard.Common.Tests.{ℕ, zero, suc, ◌≤◌, ◌≡◌, Bool, List, Option, none, some, if◌then◌else◌}
use rfguard.Common.Eq.{◌==◌}
use rfguard.Common.Lists.{length, drop, count}
use rfguard.Common.Text.{Text, is_empty, text_eq}
use rfguard.Common.Int.{ℤ, pos, max_int}
use rfguard.Common.Maps.{Map, lookup, Distinct}
use rfguard.Model.{is_failure}
use rfguard.Window.{EventEntry, WindowState}

abbrev pub live : WindowState → List EventEntry
live w = drop w.head w.events

abbrev pub failed : EventEntry → Bool
failed ev = is_failure ev.result

abbrev pub uses : Text → EventEntry → Bool
uses uid ev = ev.uid == uid

-- The entry of a UID with `n` events: none for 0.
abbrev pub entry : ℕ → Option ℤ
entry zero = none
entry (suc n) = some (pos (suc n))

abbrev pub tally : Text → List EventEntry → Option ℤ
tally uid evs = if is_empty uid then none else entry (count (uses uid) evs)

-- The counters agree with the events.
pub record Counts (evs : List EventEntry) (attempts failures : ℤ) (uid_counts : Map Text ℤ)
    : Type 0 where
  pub attempts_count : attempts ≡ pos (length evs)
  pub failures_count : failures ≡ pos (count failed evs)
  pub uids_count : (uid : Text) → lookup uid uid_counts ≡ tally uid evs
  pub distinct : Distinct uid_counts

-- A slice has at most 2 ^ 63 - 1 elements.
pub record IsValid (w : WindowState) : Type 0 where
  pub within : w.head ≤ length w.events
  pub sized : length w.events ≤ max_int
  pub counts : Counts (live w) w.attempts w.failures w.uid_counts
