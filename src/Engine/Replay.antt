-- ===== src/Engine/Replay.antt =====
-- `ProcessEvent` drops the replay of an event.
use mathlib.Core.Path.{subst}
use rfguard.Common.Tests.{
  ℕ, suc, ◌≡◌, refl, ap, sym, ◌∙◌, Bool, true, false, not, ◌&&◌, List, [], ◌∷◌, some, if◌then◌else◌,
  arith, ltb, Bool-cases, inl, inr,
}
use rfguard.Common.Eq.{beq_refl}
use rfguard.Common.Lists.{length}
use rfguard.Common.Text.{Text, text_eq}
use rfguard.Common.Int.{pos, leb_ℤ, ltb_ℤ, eqb_ℤ, ◌≤ℤ◌, ◌<ℤ◌, ◌-ℤ◌}
use rfguard.Common.Maps.{Map, lookup, insert, lookup-insert}
use rfguard.Common.Clock.{Time, Duration, sub_time}
use rfguard.Common.Float.{Float}
use rfguard.Model.{NormalizedEvent, Alert}
use rfguard.Config.{Config}
use rfguard.Dedupe
use rfguard.Dedupe.{DedupeCache, is_fresh, seen, remember, capacity}
use rfguard.Engine.{Engine, Platform}
use rfguard.Engine.Clamp.{clamp_timestamp, within_skew, clamp_timestamp_lem}
use rfguard.Engine.Monad.{return, now_utc}
use rfguard.Engine.Process.{hash_event, is_duplicate, process_fresh, process_event}
use rfguard.Engine.Returned.{process_fresh-Emits}

lookup-compact :
    (now : Time) (ttl : Duration) (k : Text) (ts : Time) (items : Map Text Time)
    → ltb_ℤ ttl (sub_time now ts) ≡ false
    → lookup k items ≡ some ts
    → lookup k (Dedupe.compact now ttl items) ≡ some ts
unfolding lookup Dedupe.compact
lookup-compact now ttl k ts [] fresh h = ground arith
lookup-compact now ttl k ts ((j, at) ∷ items) fresh h =
    ground (arith, lookup-compact now ttl k ts items fresh)

lookup-remember :
    (key : Text) (now : Time) (ttl : Duration) (items : Map Text Time)
    → pos 0 ≤ℤ ttl
    → lookup key (remember key now ttl items) ≡ some now
unfolding remember sub_time ◌-ℤ◌
lookup-remember key now ttl items h =
    let written = insert key now items in
    let fresh : ltb_ℤ ttl (sub_time now now) ≡ false = ground arith in
    let stored : lookup key written ≡ some now =
      ground (arith, lookup-insert key key now items, beq_refl key) in
    elim (Bool-cases (ltb capacity (length written))) [
      | inl over ↦ rw over (lookup-compact now ttl key now written fresh stored)
      | inr fits ↦ rw fits stored
    ]

module _ (key : Text) (now later : Time) (ttl : Duration) (d : DedupeCache) where
  seen_fresh :
      (seen d key now ttl).1 ≡ false
      → seen d key now ttl ≡ (record { items = remember key now ttl d.items }, false)
  unfolding seen
  seen_fresh fresh = elim (Bool-cases (is_fresh now ttl (lookup key d.items))) [
    | inl old ↦ ground (arith, old)
    | inr new ↦ rw new refl
  ]

  seen_stale :
      (c : DedupeCache)
      → lookup key c.items ≡ some now
      → sub_time later now ≤ℤ ttl
      → seen c key later ttl ≡ (c, true)
  unfolding seen
  seen_stale c stored soon =
      let fresh : is_fresh later ttl (some now) ≡ true = ground arith in rw (stored, fresh) refl

  -- A key that has been accepted is a duplicate for the next `ttl`, and stays as it is.
  seen_again :
      (seen d key now ttl).1 ≡ false
      → pos 0 ≤ℤ ttl
      → sub_time later now ≤ℤ ttl
      → seen (seen d key now ttl).0 key later ttl ≡ ((seen d key now ttl).0, true)
  seen_again fresh h soon =
      seen_stale (seen d key now ttl).0
        (ap (λ r. lookup key r.0.items) (seen_fresh fresh) ∙ lookup-remember key now ttl d.items h)
        soon

module _ {F : Type 0} ⦃d : Float F⦄ (clock : ℕ → Time) (p : Platform) (ev : NormalizedEvent) where
  -- What the cache answers to the event in the state `e`, at the second reading of the clock.
  abbrev pub asked : Engine F → DedupeCache × Bool
  asked e = seen e.de_dupe (hash_event p ev) (clock (suc e.readings)) e.cfg.detection.dedupe_window

  -- The timestamp is set and within the skews.
  abbrev pub stands : Engine F → Bool
  stands e =
      not (eqb_ℤ ev.timestamp (pos 0))
      && within_skew ev.timestamp (clock e.readings) e.cfg.detection.max_clock_skew
          e.cfg.detection.max_future_skew

  abbrev after : Engine F → Engine F
  after e = record e { de_dupe = (asked e).0; readings = suc (suc e.readings) }

  -- `ProcessEvent` with the answer of `isDuplicate` at hand.
  abbrev decided : Config F → NormalizedEvent → Bool × Engine F → List (Alert F) × Engine F
  decided cfg at r = (if r.0 then return [] else process_fresh clock cfg at) r.1

  abbrev ask : Time → Engine F → Bool × Engine F
  ask t e =
      is_duplicate clock p (record ev { timestamp = t }) e.cfg.detection.dedupe_window
        (record e { readings = suc e.readings })

  process_event-clamp :
      (e : Engine F)
      → let t =
          clamp_timestamp ev.timestamp
            (clock e.readings)
            e.cfg.detection.max_clock_skew
            e.cfg.detection.max_future_skew in
        process_event clock p ev e ≡ decided e.cfg (record ev { timestamp = t }) (ask t e)
  unfolding process_event now_utc
  process_event-clamp e = refl

  clamp-stands :
      (e : Engine F)
      → stands e ≡ true
      → clamp_timestamp ev.timestamp
          (clock e.readings)
          e.cfg.detection.max_clock_skew
          e.cfg.detection.max_future_skew
        ≡ ev.timestamp
  clamp-stands e s =
      (clamp_timestamp_lem ev.timestamp (clock e.readings) e.cfg.detection.max_clock_skew
        e.cfg.detection.max_future_skew).0
      ∙ rw s refl

  ask-asked :
      (e : Engine F)
      → pos 0 <ℤ e.cfg.detection.dedupe_window
      → ask ev.timestamp e ≡ ((asked e).1, after e)
  unfolding is_duplicate
  ask-asked e w =
      let opened : leb_ℤ e.cfg.detection.dedupe_window (pos 0) ≡ false = ground arith in
      rw opened refl

  process_event-asked :
      (e : Engine F)
      → stands e ≡ true
      → pos 0 <ℤ e.cfg.detection.dedupe_window
      → process_event clock p ev e ≡ decided e.cfg ev ((asked e).1, after e)
  process_event-asked e s w =
      process_event-clamp e
      ∙ ap (λ t. decided e.cfg (record ev { timestamp = t }) (ask t e)) (clamp-stands e s)
      ∙ ap (decided e.cfg ev) (ask-asked e w)

  -- When the same event comes again before the dedupe window has passed, with a timestamp that
  -- stands, after it was accepted: no alert is raised, and nothing changes but the number of readings.
  pub process_event_again :
      (e : Engine F)
      → let f = (process_event clock p ev e).1 in
        pos 0 <ℤ e.cfg.detection.dedupe_window
        → stands e ≡ true
        → stands f ≡ true
        → (asked e).1 ≡ false
        → sub_time (clock (suc f.readings)) (clock (suc e.readings))
          ≤ℤ e.cfg.detection.dedupe_window
        → process_event clock p ev f ≡ ([], record f { readings = suc (suc f.readings) })
  process_event_again e w s s' fresh soon =
      let f = (process_event clock p ev e).1 in
      let first : process_event clock p ev e ≡ process_fresh clock e.cfg ev (after e) =
        process_event-asked e s w ∙ ap (λ b. decided e.cfg ev (b, after e)) fresh in
      let emits = process_fresh-Emits clock e.cfg ev (after e) in
      let cfg : f.cfg ≡ e.cfg = ap (λ r. r.1.cfg) first ∙ emits.cfg in
      let cache : f.de_dupe ≡ (asked e).0 = ap (λ r. r.1.de_dupe) first ∙ emits.de_dupe in
      let h : pos 0 ≤ℤ e.cfg.detection.dedupe_window = omega arith in
      let answer : asked f ≡ (f.de_dupe, true) =
        ap
          (λ c. seen f.de_dupe (hash_event p ev) (clock (suc f.readings)) c.detection.dedupe_window)
          cfg
        ∙ ap (λ c. seen c (hash_event p ev) (clock (suc f.readings)) e.cfg.detection.dedupe_window)
            cache
        ∙ seen_again (hash_event p ev) (clock (suc e.readings)) (clock (suc f.readings))
            e.cfg.detection.dedupe_window e.de_dupe fresh h soon
        ∙ ap (λ c. (c, true)) (sym cache) in
      process_event-asked f s' (subst (λ c. pos 0 <ℤ c.detection.dedupe_window) (sym cfg) w)
      ∙ ap
          (λ a. decided f.cfg ev (a.1, record f { de_dupe = a.0; readings = suc (suc f.readings) }))
          answer
