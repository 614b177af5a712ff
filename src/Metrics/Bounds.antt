-- ===== src/Metrics/Bounds.antt =====
-- The metrics store stays within its limit, keeps its two maps in step, and forgets the reader that
-- was updated longest ago.
use mathlib.Core.Path.{subst}
use rfguard.Common.Tests.{
  suc, ◌<◌, ◌≡◌, refl, ap, sym, ◌∙◌, true, false, List, [], ◌∷◌, some, arith, Bool-cases, inl, inr,
  ◌⊎◌,
}
use rfguard.Common.Eq.{beq_refl}
use rfguard.Common.Lists.{length, All}
use rfguard.Common.Text.{Text, text_eq, is_empty, eq_text_iff}
use rfguard.Common.Int.{pos, ◌≤ℤ◌, ◌<ℤ◌}
use rfguard.Common.Maps.{
  Map, lookup, delete, has, Distinct, has-insert, insert-Distinct, length-delete, has_of_lookup,
}
use rfguard.Common.Clock.{Time, before}
use rfguard.Model.{WindowMetrics}
use rfguard.Metrics.{Store, oldest_loop, write_all, evict_oldest, write, or_new}

-- What the loop has found in `m`, when it started from `best`.
record Oldest (best : Text × Time) (m : Map Text Time) (found : Text × Time) : Type 0 where
  le_best : found.1 ≤ℤ best.1
  le_all : All (λ e. found.1 ≤ℤ e.1) m
  from : (found ≡ best) ⊎ (lookup found.0 m ≡ some found.1)

lookup_behind :
    (reader : Text) (ts : Time) (rest : Map Text Time) (k : Text) (t : Time)
    → has reader rest ≡ false
    → lookup k rest ≡ some t
    → lookup k ((reader, ts) ∷ rest) ≡ some t
unfolding lookup
lookup_behind reader ts rest k t h e =
    ground (arith, eq_text_iff reader k, has_of_lookup k t rest e)

lookup_front :
    (reader : Text) (ts : Time) (rest : Map Text Time)
    → lookup reader ((reader, ts) ∷ rest) ≡ some ts
unfolding lookup
lookup_front reader ts rest = ground (arith, beq_refl reader)

oldest_loop-Oldest :
    (best : Text × Time) (m : Map Text Time)
    → is_empty best.0 ≡ false
    → has [] m ≡ false
    → Distinct m
    → Oldest best m (oldest_loop best m)
unfolding oldest_loop has lookup
oldest_loop-Oldest best [] named nonempty d = record {
  le_best = omega arith;
  le_all = tt;
  from = inl refl;
}
oldest_loop-Oldest best ((reader, ts) ∷ rest) named nonempty d =
    elim (Bool-cases (before ts best.1)) [
      | inl older ↦
          let o = oldest_loop-Oldest (reader, ts) rest (ground arith) (ground arith) d.1 in
          let found = oldest_loop (reader, ts) rest in
          rw (named, older)
            (record {
              le_best = ground (arith, o.le_best);
              le_all = (o.le_best, o.le_all);
              from = inr (elim o.from [
                | inl e ↦
                    subst (λ f. lookup f.0 ((reader, ts) ∷ rest) ≡ some f.1) (sym e)
                      (lookup_front reader ts rest)
                | inr e ↦ lookup_behind reader ts rest found.0 found.1 d.0 e
              ]);
            })
      | inr newer ↦
          let o = oldest_loop-Oldest best rest named (ground arith) d.1 in
          let found = oldest_loop best rest in
          rw (named, newer)
            (record {
              le_best = o.le_best;
              le_all = (ground (arith, o.le_best), o.le_all);
              from = elim o.from [
                | inl e ↦ inl e
                | inr e ↦ inr (lookup_behind reader ts rest found.0 found.1 d.0 e)
              ];
            })
    ]

named_of_has :
    (m : Map Text Time) (k : Text) → has [] m ≡ false → has k m ≡ true → is_empty k ≡ false
named_of_has m [] h e = ground arith
named_of_has m (c ∷ k) h e = refl

-- No entry of the map is older than `ts`, which is the time of `reader`.
pub record IsOldest (m : Map Text Time) (reader : Text) (ts : Time) : Type 0 where
  pub there : lookup reader m ≡ some ts
  pub least : All (λ e. ts ≤ℤ e.1) m

find-IsOldest :
    (m : Map Text Time)
    → has [] m ≡ false
    → Distinct m
    → 0 < length m
    → let found = oldest_loop ([], pos 0) m in IsOldest m found.0 found.1
unfolding oldest_loop has
find-IsOldest [] named d h = absurd (omega arith)
find-IsOldest ((reader, ts) ∷ rest) named d h =
    let found = oldest_loop (reader, ts) rest in
    let o = oldest_loop-Oldest (reader, ts) rest (ground arith) (ground arith) d.1 in
    record {
      there = elim o.from [
        | inl e ↦
            subst (λ f. lookup f.0 ((reader, ts) ∷ rest) ≡ some f.1) (sym e)
              (lookup_front reader ts rest)
        | inr e ↦ lookup_behind reader ts rest found.0 found.1 d.0 e
      ];
      least = (o.le_best, o.le_all);
    }

module _ {F : Type 0} where
  -- Both maps have the same readers, none of them "".
  pub record InStep (s : Store F) : Type 0 where
    pub readers : Distinct s.by_reader
    pub times : Distinct s.updated_at
    pub same : (k : Text) → has k s.by_reader ≡ has k s.updated_at
    pub named : has [] s.updated_at ≡ false

  pub record IsValid (s : Store F) : Type 0 where
    pub in_step : InStep s
    pub bounded : pos (length s.by_reader) ≤ℤ s.limit
    pub limited : pos 0 <ℤ s.limit

  pub write-InStep :
      (s : Store F) (reader_id : Text) (metrics : List (WindowMetrics F)) (now : Time)
      → is_empty reader_id ≡ false
      → InStep s
      → InStep (write s reader_id metrics now)
  unfolding write
  write-InStep s reader_id metrics now name v =
      let m = write_all metrics (or_new (lookup reader_id s.by_reader)) in
      record {
        readers = insert-Distinct reader_id m s.by_reader v.readers;
        times = insert-Distinct reader_id now s.updated_at v.times;
        same = λ k. ground (
          arith,
          has-insert reader_id k m s.by_reader,
          has-insert reader_id k now s.updated_at,
          v.same k,
        );
        named = ground (arith, has-insert reader_id [] now s.updated_at, v.named);
      }

  -- What `evict_oldest` does to a store that holds something.
  pub record Evicts (s t : Store F) : Type 0 where
    pub gone : Text
    pub since : Time
    pub oldest : IsOldest s.updated_at gone since
    pub readers : t.by_reader ≡ delete gone s.by_reader
    pub times : t.updated_at ≡ delete gone s.updated_at
    pub limit : t.limit ≡ s.limit
    pub smaller : suc (length t.by_reader) ≡ length s.by_reader

  pub evict_oldest-Evicts :
      (s : Store F) → InStep s → 0 < length s.updated_at → Evicts s (evict_oldest s)
  evict_oldest-Evicts s v h =
      let found = oldest_loop ([], pos 0) s.updated_at in
      let o = find-IsOldest s.updated_at v.named v.times h in
      let held = has_of_lookup found.0 found.1 s.updated_at o.there in
      let name = named_of_has s.updated_at found.0 v.named held in
      let step : evict_oldest s ≡ record s {
        by_reader = delete found.0 s.by_reader;
        updated_at = delete found.0 s.updated_at;
      } =
        unfold evict_oldest in rw name refl in
      record {
        gone = found.0;
        since = found.1;
        oldest = o;
        readers = ap (λ t. t.by_reader) step;
        times = ap (λ t. t.updated_at) step;
        limit = ap (λ t. t.limit) step;
        smaller =
            ap (λ t. suc (length t.by_reader)) step
            ∙ length-delete found.0 s.by_reader v.readers (v.same found.0 ∙ held);
      }
