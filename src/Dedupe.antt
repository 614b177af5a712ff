-- ===== src/Dedupe.antt =====
-- internal/engine/dedupe.go: the cache of recent event keys. A call is atomic under the mutex.
pub mod Answers
use rfguard.Common.Tests.{
  ℕ, ◌≡◌, Bool, true, false, not, List, [], ◌∷◌, Option, none, some, ltb, if◌then◌else◌,
}
use rfguard.Common.Lists.{length}
use rfguard.Common.Text.{Text, text_eq}
use rfguard.Common.Int.{ℤ, leb_ℤ, ltb_ℤ}
use rfguard.Common.Maps.{Map, lookup, insert}
use rfguard.Common.Clock.{Time, Duration, sub_time}

pub record DedupeCache : Type 0 where
  pub items : Map Text Time

unfoldable pub new_dedupe_cache : DedupeCache
new_dedupe_cache = record { items = [] }

-- An entry that was written at `ts` still counts at `now`.
abbrev pub is_fresh : Time → Duration → Option Time → Bool
is_fresh now ttl none = false
is_fresh now ttl (some ts) = leb_ℤ (sub_time now ts) ttl

-- `compact`: entries older than `ttl` are deleted.
unfoldable pub compact : Time → Duration → Map Text Time → Map Text Time
compact now ttl [] = []
compact now ttl ((k, ts) ∷ items) =
    let rest = compact now ttl items in if ltb_ℤ ttl (sub_time now ts) then rest else (k, ts) ∷ rest

abbrev pub capacity : ℕ
capacity = 10_000

unfoldable pub remember : Text → Time → Duration → Map Text Time → Map Text Time
remember key now ttl items =
    let written = insert key now items in
    if ltb capacity (length written) then compact now ttl written else written

unfoldable pub seen : DedupeCache → Text → Time → Duration → DedupeCache × Bool
unfolding remember
seen d key now ttl =
    if is_fresh now ttl (lookup key d.items)
    then (d, true)
    else (record { items = remember key now ttl d.items }, false)
