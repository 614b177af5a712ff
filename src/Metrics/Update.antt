-- ===== src/Metrics/Update.antt =====
-- `Update`: the store stays valid, and the metrics that were just written can be read back.
use mathlib.Core.Path.{subst}
use rfguard.Common.Tests.{
  suc, ◌≤◌, ◌<◌, ◌≡◌, refl, ◌≢◌, ap, sym, ◌∙◌, true, false, List, [], ◌∷◌, some, arith,
  if◌then◌else◌, Bool-cases, Option-cases, inl, inr,
}
use rfguard.Common.Eq.{◌==◌, beq_refl, beq_ne}
use rfguard.Common.Lists.{length, All}
use rfguard.Common.Text.{Text, text_eq, is_empty}
use rfguard.Common.Int.{ℤ, pos, pos_part, neg_part, ltb_ℤ, ltb_ℤ→ge, ltb_ℤ→lt, ◌≤ℤ◌, ◌<ℤ◌}
use rfguard.Common.Maps.{
  Map, lookup, has, Distinct, lookup-insert, lookup-delete, has-insert, has-delete, delete-Distinct,
  length-insert, has_of_none,
}
use rfguard.Common.Clock.{Time}
use rfguard.Model.{WindowMetrics}
use rfguard.Metrics.{Store, new_store, write_all, evict_oldest, write, update, or_new, get, values}
use rfguard.Metrics.Bounds.{InStep, IsValid, Evicts, evict_oldest-Evicts, write-InStep}

pos_of_has {κ} : {V : Type κ} (k : Text) (m : Map Text V) → has k m ≡ true → 0 < length m
unfolding has
pos_of_has k [] h = ground arith
pos_of_has k (e ∷ m) h = omega arith

some_key {κ} : {V : Type κ} (m : Map Text V) → 0 < length m → (k : Text) × (has k m ≡ true)
unfolding has
some_key [] h = absurd (omega arith)
some_key ((j, v) ∷ m) h = (j, ground (arith, beq_refl j))

All-lookup :
    (P : Time → Type 0) (m : Map Text Time) (k : Text) (t : Time)
    → All (λ e. P e.1) m
    → lookup k m ≡ some t
    → P t
unfolding lookup
All-lookup P [] k t a e = ground arith
All-lookup P ((j, u) ∷ m) k t a e = elim (Bool-cases (j == k)) [
  | inl hit ↦ let same : u ≡ t = ground arith in subst P same a.0
  | inr miss ↦ All-lookup P m k t a.1 (ground arith)
]

module _ {F : Type 0} where
  Evicts-InStep : (s t : Store F) → Evicts s t → InStep s → InStep t
  Evicts-InStep s t e v = record {
    readers = subst Distinct (sym e.readers) (delete-Distinct e.gone s.by_reader v.readers);
    times = subst Distinct (sym e.times) (delete-Distinct e.gone s.updated_at v.times);
    same = λ k.
        rw (e.readers, e.times)
          (ground
            (arith, has-delete e.gone k s.by_reader, has-delete e.gone k s.updated_at, v.same k));
    named = rw e.times (ground (arith, has-delete e.gone [] s.updated_at, v.named));
  }

  module _ (s : Store F) (reader_id : Text) (metrics : List (WindowMetrics F)) (now : Time)
      (name : is_empty reader_id ≡ false) where
    abbrev written : Store F
    written = write s reader_id metrics now

    update_within :
        ltb_ℤ s.limit (pos (length written.by_reader)) ≡ false
        → update s reader_id metrics now ≡ written
    unfolding update
    update_within fits = rw (name, fits) refl

    update_over :
        ltb_ℤ s.limit (pos (length written.by_reader)) ≡ true
        → update s reader_id metrics now ≡ evict_oldest written
    unfolding update
    update_over over = rw (name, over) refl

    has-written : has reader_id written.updated_at ≡ true
    unfolding write
    has-written =
        ground (arith, has-insert reader_id reader_id now s.updated_at, beq_refl reader_id)

    length-written-le : length written.by_reader ≤ suc (length s.by_reader)
    unfolding write
    length-written-le = ground (
      arith,
      length-insert reader_id (write_all metrics (or_new (lookup reader_id s.by_reader)))
          s.by_reader,
    )

    written-Evicts : InStep s → Evicts written (evict_oldest written)
    written-Evicts v =
        evict_oldest-Evicts written (write-InStep s reader_id metrics now name v)
          (pos_of_has reader_id written.updated_at has-written)

    written_limit : written.limit ≡ s.limit
    unfolding write
    written_limit = refl

  -- An update of a valid store keeps the two maps in step and the number of readers within the limit.
  pub update-IsValid :
      (s : Store F) (reader_id : Text) (metrics : List (WindowMetrics F)) (now : Time)
      → IsValid s
      → IsValid (update s reader_id metrics now)
  update-IsValid s [] metrics now v = unfold update in v
  update-IsValid s (c ∷ r) metrics now v =
      let w = write s (c ∷ r) metrics now in
      let step = write-InStep s (c ∷ r) metrics now refl v.in_step in
      let grown = length-written-le s (c ∷ r) metrics now refl in
      let same = written_limit s (c ∷ r) metrics now refl in
      elim (Bool-cases (ltb_ℤ s.limit (pos (length w.by_reader)))) [
        | inl over ↦
            let e = written-Evicts s (c ∷ r) metrics now refl v.in_step in
            let limit = e.limit ∙ same in
            rw (update_over s (c ∷ r) metrics now refl over) (record {
              in_step = Evicts-InStep w (evict_oldest w) e step;
              bounded =
                  subst (λ l. pos (length (evict_oldest w).by_reader) ≤ℤ l) (sym limit)
                    (omega (arith, e.smaller, grown, v.bounded));
              limited = subst (λ l. pos 0 <ℤ l) (sym limit) v.limited;
            })
        | inr fits ↦ rw (update_within s (c ∷ r) metrics now refl fits) (record {
          in_step = step;
          bounded =
              subst (λ l. pos (length w.by_reader) ≤ℤ l) (sym same)
                (ltb_ℤ→ge s.limit (pos (length w.by_reader)) fits);
          limited = subst (λ l. pos 0 <ℤ l) (sym same) v.limited;
        })
      ]

  pub new_store-IsValid : (limit : ℤ) → IsValid (new_store {F = F} limit)
  unfolding new_store has
  new_store-IsValid limit = record {
    in_step = record { readers = tt; times = tt; same = λ k. refl; named = refl };
    bounded = ground arith;
    limited = ground arith;
  }

  module _ (s : Store F) (reader_id : Text) (metrics : List (WindowMetrics F)) (now : Time)
      (j : Text) where
    written_at :
        lookup j (write s reader_id metrics now).updated_at
        ≡ (if reader_id == j then some now else lookup j s.updated_at)
    unfolding write
    written_at = lookup-insert reader_id j now s.updated_at

    written_metrics : lookup j (write s reader_id metrics now).by_reader ≡ (
        if reader_id == j
        then some (write_all metrics (or_new (lookup reader_id s.by_reader)))
        else lookup j s.by_reader)
    unfolding write
    written_metrics =
        lookup-insert reader_id j (write_all metrics (or_new (lookup reader_id s.by_reader)))
          s.by_reader

  get_of :
      (t : Store F) (k : Text) (m : Map ℤ (WindowMetrics F)) (at : Time)
      → lookup k t.by_reader ≡ some m
      → lookup k t.updated_at ≡ some at
      → get t k ≡ some (values m, at)
  unfolding get
  get_of t k m at e f = ground arith

  -- What is left after an eviction is a reader that was there, and not the evicted one.
  other_key :
      (s t : Store F)
      → InStep s
      → (e : Evicts s t) → 1 < length s.by_reader
      → (j : Text) × (at : Time) × ((e.gone == j) ≡ false) × (lookup j s.updated_at ≡ some at)
  other_key s t v e two =
      let (j, kept) = some_key t.by_reader (omega (arith, e.smaller)) in
      let kept' = rw e.readers at kept in
      let rest = has-delete e.gone j s.by_reader in
      let listed : has j s.updated_at ≡ true = ground (arith, v.same j, kept', rest) in
      elim (Option-cases (lookup j s.updated_at)) [
        | inl missing ↦ ground (arith, has_of_none j s.updated_at missing, listed)
        | inr (at, found) ↦ (j, at, ground (arith, kept', rest), found)
      ]

  -- An update that is later than all before it evicts another reader than the one that it writes.
  gone_is_other :
      (s t : Store F) (reader_id : Text) (metrics : List (WindowMetrics F)) (now : Time)
      → is_empty reader_id ≡ false
      → InStep s
      → All (λ e. e.1 <ℤ now) s.updated_at
      → 1 < length (write s reader_id metrics now).by_reader
      → (e : Evicts (write s reader_id metrics now) t) → e.gone ≢ reader_id
  gone_is_other s t reader_id metrics now name v later two e same =
      let w = write s reader_id metrics now in
      let (j, at, differs, found) =
        other_key w t (write-InStep s reader_id metrics now name v) e two in
      let least = All-lookup (λ u. e.since ≤ℤ u) w.updated_at j at e.oldest.least found in
      let own = written_at s reader_id metrics now reader_id in
      let theirs = written_at s reader_id metrics now j in
      let stamp : e.since ≡ now = ground (arith, e.oldest.there, same, own, beq_refl reader_id) in
      let old : lookup j s.updated_at ≡ some at = ground (arith, same, differs, theirs, found) in
      let before_now = All-lookup (λ u. u <ℤ now) s.updated_at j at later old in
      absurd (omega (arith, ap pos_part stamp, ap neg_part stamp, least, before_now))

  -- What `Update` has just written is what `Get` returns, if the clock has moved on since the last
  -- update: the windows of before, overwritten by the new metrics, and the time.
  pub get-write_all :
      (s : Store F) (reader_id : Text) (metrics : List (WindowMetrics F)) (now : Time)
      → reader_id ≢ []
      → IsValid s
      → All (λ e. e.1 <ℤ now) s.updated_at
      → get (update s reader_id metrics now) reader_id
        ≡ some (values (write_all metrics (or_new (lookup reader_id s.by_reader))), now)
  get-write_all s reader_id metrics now nonempty v later =
      let w = write s reader_id metrics now in
      let m = write_all metrics (or_new (lookup reader_id s.by_reader)) in
      let name : is_empty reader_id ≡ false = ground arith in
      let mine : lookup reader_id w.by_reader ≡ some m =
        ground (arith, written_metrics s reader_id metrics now reader_id, beq_refl reader_id) in
      let at : lookup reader_id w.updated_at ≡ some now =
        ground (arith, written_at s reader_id metrics now reader_id, beq_refl reader_id) in
      elim (Bool-cases (ltb_ℤ s.limit (pos (length w.by_reader)))) [
        | inl over ↦
            let t = evict_oldest w in
            let e = written-Evicts s reader_id metrics now name v.in_step in
            let two : 1 < length w.by_reader =
              omega (arith, ltb_ℤ→lt s.limit (pos (length w.by_reader)) over, v.limited) in
            let other = gone_is_other s t reader_id metrics now name v.in_step later two e in
            let kept : lookup reader_id t.by_reader ≡ some m = rw e.readers (
              ground (
                arith,
                lookup-delete e.gone reader_id w.by_reader,
                mine,
                beq_ne e.gone reader_id other,
              )) in
            let stamped : lookup reader_id t.updated_at ≡ some now = rw e.times (
              ground (
                arith,
                lookup-delete e.gone reader_id w.updated_at,
                at,
                beq_ne e.gone reader_id other,
              )) in
            rw (update_over s reader_id metrics now name over)
              (get_of t reader_id m now kept stamped)
        | inr fits ↦
            rw (update_within s reader_id metrics now name fits) (get_of w reader_id m now mine at)
      ]
