-- ===== src/Metrics/Latest.antt =====
-- What `Get` returns after `Update`, against the list of metrics that was given.
use rfguard.Common.Tests.{
  ◌≡◌, ◌≢◌, refl, ◌∙◌, ap, List, [], ◌∷◌, Option, none, some, if◌then◌else◌, Bool-cases, inl, inr,
}
use rfguard.Common.Eq.{◌==◌}
use rfguard.Common.Lists.{All}
use rfguard.Common.Text.{Text, text_eq}
use rfguard.Common.Int.{ℤ, int_eq, ◌<ℤ◌}
use rfguard.Common.Maps.{Map, Distinct, lookup, lookup-insert, insert, insert-Distinct}
use rfguard.Common.Clock.{Time}
use rfguard.Model.{WindowMetrics}
use rfguard.Metrics.{Store, write_all, update, or_new, get, values}
use rfguard.Metrics.Bounds.{IsValid}
use rfguard.Metrics.Update.{get-write_all}

abbrev pub or_else : {A : Type 0} → Option A → Option A → Option A
or_else none b = b
or_else (some a) b = some a

module _ {F : Type 0} where
  -- The last metrics of a window in a list.
  abbrev pub latest : ℤ → List (WindowMetrics F) → Option (WindowMetrics F)
  latest k [] = none
  latest k (wm ∷ rest) = or_else (latest k rest) (if wm.window_sec == k then some wm else none)

  -- A map of windows that has the metrics of a list, and the old ones of the windows that the list does
  -- not name.
  pub record IsOverwritten (metrics : List (WindowMetrics F)) (old m : Map ℤ (WindowMetrics F))
      : Type 0 where
    pub once : Distinct m
    pub windows : (k : ℤ) → lookup k m ≡ or_else (latest k metrics) (lookup k old)

  or_else_if :
      (a : Option (WindowMetrics F)) (wm : WindowMetrics F) (k : ℤ) (old : Option (WindowMetrics F))
      → or_else a (if wm.window_sec == k then some wm else old)
        ≡ or_else (or_else a (if wm.window_sec == k then some wm else none)) old
  or_else_if (some b) wm k old = refl
  or_else_if none wm k old = elim (Bool-cases (wm.window_sec == k)) [
    | inl same ↦ rw same refl
    | inr other ↦ rw other refl
  ]

  write_all-IsOverwritten :
      (metrics : List (WindowMetrics F)) (old : Map ℤ (WindowMetrics F))
      → Distinct old
      → IsOverwritten metrics old (write_all metrics old)
  unfolding write_all
  write_all-IsOverwritten [] old once = record { once = once; windows = λ k. refl }
  write_all-IsOverwritten (wm ∷ rest) old once =
      let later =
        write_all-IsOverwritten rest (insert wm.window_sec wm old)
          (insert-Distinct wm.window_sec wm old once) in
      record {
        once = later.once;
        windows = λ k.
            later.windows k
            ∙ ap (or_else (latest k rest)) (lookup-insert wm.window_sec k wm old)
            ∙ or_else_if (latest k rest) wm k (lookup k old);
      }

  -- What `Update` has just written is what `Get` returns, if the clock is later than at all updates
  -- before, so that an eviction hits another reader: the time of the update and, once for each window,
  -- the last metrics of the list for it, or those that were there if the list has none. The windows
  -- that were there have distinct keys, as in every Go map.
  pub get-update :
      (s : Store F) (reader_id : Text) (metrics : List (WindowMetrics F)) (now : Time)
      → reader_id ≢ []
      → IsValid s
      → All (λ e. e.1 <ℤ now) s.updated_at
      → Distinct (or_new (lookup reader_id s.by_reader))
      → (m : Map ℤ (WindowMetrics F)) × (get (update s reader_id metrics now) reader_id
          ≡ some (values m, now))
        × IsOverwritten metrics (or_new (lookup reader_id s.by_reader)) m
  get-update s reader_id metrics now named v later once =
      let old = or_new (lookup reader_id s.by_reader) in
      (
        write_all metrics old,
        get-write_all s reader_id metrics now named v later,
        write_all-IsOverwritten metrics old once,
      )
