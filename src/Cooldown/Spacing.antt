-- ===== src/Cooldown/Spacing.antt =====
-- Alerts of one key are at least the cooldown apart, and no others are held back.
use rfguard.Common.Tests.{
  ◌≡◌, refl, Bool, true, false, List, [], ◌∷◌, Option, none, some, arith, if◌then◌else◌, Bool-cases,
  inl, inr,
}
use mathlib.Core.Path.{ap₂}
use rfguard.Common.Eq.{◌==◌}
use rfguard.Common.Text.{Text, text_eq}
use rfguard.Common.Int.{pos, ◌≤ℤ◌, ◌<ℤ◌}
use rfguard.Common.Maps.{lookup, insert, lookup-insert}
use rfguard.Common.Clock.{Time, Duration, sub_time}
use rfguard.Cooldown.{Cooldown, new_cooldown, is_cooling, allow_key}

abbrev pub Calls : Type 0
Calls = List (Text × Time)

-- The answers to a sequence of calls, each at its reading of the clock.
unfoldable pub run : Duration → Cooldown → Calls → List Bool
run cooldown c [] = []
run cooldown c ((key, now) ∷ calls) =
    let (after, allowed) = allow_key c key cooldown now in allowed ∷ run cooldown after calls

-- The specification: from the alerts so far, the newest first, an alert is let through unless the
-- last one with its key is less than the cooldown ago.
unfoldable pub answers : Duration → Calls → Calls → List Bool
answers cooldown sent [] = []
answers cooldown sent ((key, now) ∷ calls) =
    let held = is_cooling now cooldown (lookup key sent) in
    (if held then false else true)
    ∷ answers cooldown (if held then sent else (key, now) ∷ sent) calls

module _ (c : Cooldown) (key : Text) (cooldown : Duration) (now : Time)
    (h : pos 0 <ℤ cooldown) where
  allow_key_held :
      is_cooling now cooldown (lookup key c.last) ≡ true → allow_key c key cooldown now ≡ (c, false)
  unfolding allow_key
  allow_key_held e = rw e (ground arith)

  allow_key_free :
      is_cooling now cooldown (lookup key c.last) ≡ false
      → allow_key c key cooldown now ≡ (record { last = insert key now c.last }, true)
  unfolding allow_key
  allow_key_free e = rw e (ground arith)

allow_key_tracks :
    (cooldown : Duration) (c : Cooldown) (sent : Calls) (key : Text) (now : Time)
    → pos 0 <ℤ cooldown
    → ((k : Text) → lookup k c.last ≡ lookup k sent)
    → let held = is_cooling now cooldown (lookup key sent) in
      ((allow_key c key cooldown now).1 ≡ (if held then false else true))
      × ((k : Text)
          → lookup k (allow_key c key cooldown now).0.last
            ≡ lookup k (if held then sent else (key, now) ∷ sent))
unfolding allow_key
allow_key_tracks cooldown c sent key now h t =
    elim (Bool-cases (is_cooling now cooldown (lookup key sent))) [
      | inl held ↦ rw (held, t key, held) (ground arith, λ k. ground (arith, t k))
      | inr free ↦
          rw (free, t key, free)
            (
              ground arith,
              λ k. unfold lookup in ground (arith, lookup-insert key k now c.last, t k),
            )
    ]

run-Tracks :
    (cooldown : Duration) (c : Cooldown) (sent calls : Calls)
    → pos 0 <ℤ cooldown
    → ((k : Text) → lookup k c.last ≡ lookup k sent)
    → run cooldown c calls ≡ answers cooldown sent calls
unfolding run answers
run-Tracks cooldown c sent [] h t = refl
run-Tracks cooldown c sent ((key, now) ∷ calls) h t =
    let (same, after) = allow_key_tracks cooldown c sent key now h t in
    ap₂ ◌∷◌ same (run-Tracks cooldown (allow_key c key cooldown now).0 _ calls h after)

-- With a positive cooldown and from an empty table on, a call is held back exactly if the last call
-- with its key that was let through is less than the cooldown ago.
pub run-answers_sent :
    (cooldown : Duration) (calls : Calls)
    → pos 0 <ℤ cooldown
    → run cooldown new_cooldown calls ≡ answers cooldown [] calls
run-answers_sent cooldown calls h =
    run-Tracks cooldown new_cooldown [] calls h (λ k. unfold new_cooldown in refl)

-- The calls that are let through.
unfoldable pub passed : Duration → Cooldown → Calls → Calls
passed cooldown c [] = []
passed cooldown c ((key, now) ∷ calls) =
    let (after, allowed) = allow_key c key cooldown now in
    let rest = passed cooldown after calls in if allowed then (key, now) ∷ rest else rest

abbrev pub Apart : Time → Duration → Option Time → Type 0
Apart now cooldown none = Unit {0}
Apart now cooldown (some ts) = cooldown ≤ℤ sub_time now ts

-- Each call with the key comes at least the cooldown after the one before it.
abbrev pub Spaced : Text → Duration → Option Time → Calls → Type 0
Spaced key cooldown last [] = Unit {0}
Spaced key cooldown last ((k, now) ∷ calls) =
    (k ≡ key → Apart now cooldown last)
    × Spaced key cooldown (if k == key then some now else last) calls

Apart-of_allowed :
    (now : Time) (cooldown : Duration) (o : Option Time)
    → is_cooling now cooldown o ≡ false
    → Apart now cooldown o
Apart-of_allowed now cooldown none h = tt
Apart-of_allowed now cooldown (some ts) h = ground arith

passed-Spaced' :
    (key : Text) (cooldown : Duration) (c : Cooldown) (calls : Calls)
    → pos 0 <ℤ cooldown
    → Spaced key cooldown (lookup key c.last) (passed cooldown c calls)
unfolding passed
passed-Spaced' key cooldown c [] h = tt
passed-Spaced' key cooldown c ((k, now) ∷ calls) h =
    elim (Bool-cases (is_cooling now cooldown (lookup k c.last))) [
      | inl held ↦
          rw (allow_key_held c k cooldown now h held) (passed-Spaced' key cooldown c calls h)
      | inr free ↦ rw (allow_key_free c k cooldown now h free) (
        λ e. Apart-of_allowed now cooldown (lookup key c.last) (rw e at free),
        rw (lookup-insert k key now c.last) at
            (passed-Spaced' key cooldown (record { last = insert k now c.last }) calls h),
      )
    ]

-- With a positive cooldown, the calls that are let through from an empty table on are, key by key,
-- at least the cooldown apart.
pub passed-Spaced :
    (key : Text) (cooldown : Duration) (calls : Calls)
    → pos 0 <ℤ cooldown
    → Spaced key cooldown none (passed cooldown new_cooldown calls)
passed-Spaced key cooldown calls h =
    unfold new_cooldown lookup in passed-Spaced' key cooldown new_cooldown calls h
