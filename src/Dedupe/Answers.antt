-- ===== src/Dedupe/Answers.antt =====
-- What the cache answers: a key is a duplicate while its last accepted event is within `ttl`, and
-- compaction never shows.
use mathlib.Core.Path.{ap₂}
use rfguard.Common.Eq.{◌==◌}
use rfguard.Common.Tests.{
  ◌≡◌, refl, false, [], ◌∷◌, Option, none, some, arith, inl, inr, Bool-cases, List, ◌⊎◌, Bool,
  if◌then◌else◌,
}
use rfguard.Common.Text.{Text, text_eq, eq_text_iff}
use rfguard.Common.Int.{pos, ◌≤ℤ◌, ◌-ℤ◌, -ℤ_parts}
use rfguard.Common.Maps.{
  Map, has, Distinct, insert, lookup, lookup-insert, insert-Distinct, lookup_of_has,
}
use rfguard.Common.Clock.{Time, Duration, sub_time}
use rfguard.Dedupe.{is_fresh, compact, remember, seen, DedupeCache, new_dedupe_cache}

-- Later readings see an instant farther in the past.
sub_time_mono : (now later ts : Time) → now ≤ℤ later → sub_time now ts ≤ℤ sub_time later ts
unfolding sub_time
sub_time_mono now later ts h = ground (arith, -ℤ_parts now ts, -ℤ_parts later ts)

sub_time_self : (now : Time) → sub_time now now ≡ pos 0
unfolding sub_time ◌-ℤ◌
sub_time_self now = ground arith

is_fresh_before :
    (now later : Time) (ttl : Duration) (o : Option Time)
    → now ≤ℤ later
    → is_fresh now ttl o ≡ false
    → is_fresh later ttl o ≡ false
is_fresh_before now later ttl none h e = refl
is_fresh_before now later ttl (some ts) h e = ground (arith, sub_time_mono now later ts h)

has-compact :
    (now : Time) (ttl : Duration) (k : Text) (items : Map Text Time)
    → has k items ≡ false
    → has k (compact now ttl items) ≡ false
unfolding has compact
has-compact now ttl k [] h = refl
has-compact now ttl k ((j, ts) ∷ items) h = ground (arith, has-compact now ttl k items)

compact-Distinct :
    (now : Time) (ttl : Duration) (items : Map Text Time)
    → Distinct items
    → Distinct (compact now ttl items)
unfolding compact
compact-Distinct now ttl [] d = d
compact-Distinct now ttl ((j, ts) ∷ items) d =
    ground (arith, has-compact now ttl j items, compact-Distinct now ttl items d.1)

-- What a smaller table may say instead of `full`: the same, or nothing of an entry that has expired.
abbrev Agrees : Time → Duration → Option Time → Option Time → Type 0
Agrees now ttl found full = (found ≡ full) ⊎ ((found ≡ none) × (is_fresh now ttl full ≡ false))

lookup-compact :
    (now : Time) (ttl : Duration) (k : Text) (items : Map Text Time)
    → Distinct items
    → Agrees now ttl (lookup k (compact now ttl items)) (lookup k items)
unfolding compact lookup
lookup-compact now ttl k [] d = inl refl
lookup-compact now ttl k ((j, ts) ∷ items) d = ground (
  arith,
  lookup-compact now ttl k items d.1,
  eq_text_iff j k,
  lookup_of_has k (compact now ttl items),
  has-compact now ttl k items,
)

remember-Distinct :
    (key : Text) (now : Time) (ttl : Duration) (items : Map Text Time)
    → Distinct items
    → Distinct (remember key now ttl items)
unfolding remember
remember-Distinct key now ttl items d =
    let written = insert-Distinct key now items d in
    ground (arith, written, compact-Distinct now ttl (insert key now items) written)

lookup-remember :
    (key : Text) (now : Time) (ttl : Duration) (items : Map Text Time) (k : Text)
    → Distinct items
    → Agrees now ttl
        (lookup k (remember key now ttl items))
        (if key == k then some now else lookup k items)
unfolding remember
lookup-remember key now ttl items k d = ground (
  arith,
  lookup-insert key k now items,
  lookup-compact now ttl k (insert key now items) (insert-Distinct key now items d),
)

abbrev pub Calls : Type 0
Calls = List (Text × Time)

-- The answers of a fresh cache to a sequence of calls, each at its reading of the clock.
unfoldable pub run : Duration → DedupeCache → Calls → List Bool
run ttl d [] = []
run ttl d ((key, now) ∷ calls) =
    let (after, duplicate) = seen d key now ttl in duplicate ∷ run ttl after calls

-- The specification: all accepted events are kept, the newest first, and an event is a duplicate if
-- the last accepted one with its key is no older than `ttl`.
unfoldable pub answers : Duration → Calls → Calls → List Bool
answers ttl accepted [] = []
answers ttl accepted ((key, now) ∷ calls) =
    let duplicate = is_fresh now ttl (lookup key accepted) in
    duplicate ∷ answers ttl (if duplicate then accepted else (key, now) ∷ accepted) calls

-- The clock does not run backwards.
abbrev pub Forward : Time → Calls → Type 0
Forward now [] = Unit {0}
Forward now ((key, next) ∷ calls) = (now ≤ℤ next) × Forward next calls

record Tracks (now : Time) (ttl : Duration) (d : DedupeCache) (accepted : Calls) : Type 0 where
  distinct : Distinct d.items
  agrees : (k : Text) → Agrees now ttl (lookup k d.items) (lookup k accepted)

Agrees-later :
    (now later : Time) (ttl : Duration) (found full : Option Time)
    → now ≤ℤ later
    → Agrees now ttl found full
    → Agrees later ttl found full
Agrees-later now later ttl found full h a = ground (arith, is_fresh_before now later ttl full h)

same_answer :
    (now : Time) (ttl : Duration) (found full : Option Time)
    → Agrees now ttl found full
    → is_fresh now ttl found ≡ is_fresh now ttl full
same_answer now ttl found full a = ground arith

seen-Tracks :
    (now : Time) (ttl : Duration) (d : DedupeCache) (accepted : Calls) (key : Text)
    → Tracks now ttl d accepted
    → let duplicate = is_fresh now ttl (lookup key accepted) in
      ((seen d key now ttl).1 ≡ duplicate)
      × Tracks now ttl
          (seen d key now ttl).0
          (if duplicate then accepted else (key, now) ∷ accepted)
unfolding seen
seen-Tracks now ttl d accepted key t =
    let same = same_answer now ttl (lookup key d.items) (lookup key accepted) (t.agrees key) in
    elim (Bool-cases (is_fresh now ttl (lookup key accepted))) [
      | inl dup ↦ rw (same, dup) (refl, t)
      | inr new ↦
          rw (same, new)
            (
              refl,
              record {
                distinct = remember-Distinct key now ttl d.items t.distinct;
                agrees = λ k.
                    unfold lookup in
                    ground (arith, lookup-remember key now ttl d.items k t.distinct, t.agrees k);
              },
            )
    ]

Tracks-later :
    (now later : Time) (ttl : Duration) (d : DedupeCache) (accepted : Calls)
    → now ≤ℤ later
    → Tracks now ttl d accepted
    → Tracks later ttl d accepted
Tracks-later now later ttl d accepted h t = record {
  distinct = t.distinct;
  agrees = λ k. Agrees-later now later ttl (lookup k d.items) (lookup k accepted) h (t.agrees k);
}

run-Tracks :
    (now : Time) (ttl : Duration) (d : DedupeCache) (accepted calls : Calls)
    → Tracks now ttl d accepted
    → Forward now calls
    → run ttl d calls ≡ answers ttl accepted calls
unfolding run answers
run-Tracks now ttl d accepted [] t h = refl
run-Tracks now ttl d accepted ((key, next) ∷ calls) t (le, h) =
    let (same, after) =
      seen-Tracks next ttl d accepted key (Tracks-later now next ttl d accepted le t) in
    ap₂ ◌∷◌ same (run-Tracks next ttl (seen d key next ttl).0 _ calls after h)

-- From an empty cache on, and while the clock does not run backwards, a key is answered to be a
-- duplicate exactly if it was accepted within `ttl`, whatever has been compacted in between.
pub run-answers :
    (ttl : Duration) (start : Time) (calls : Calls)
    → Forward start calls
    → run ttl new_dedupe_cache calls ≡ answers ttl [] calls
run-answers ttl start calls h =
    run-Tracks start ttl new_dedupe_cache [] calls
      (record {
        distinct = unfold new_dedupe_cache in tt;
        agrees = λ k. unfold new_dedupe_cache lookup in inl refl;
      })
      h
