-- ===== src/Window/Ratios.antt =====
-- The ranges of the ratios, and windows that are filled in the order of time.
use rfguard.Common.Tests.{ℕ, ◌≤◌, ◌≡◌, false, List, [], ◌∷◌, arith, if◌then◌else◌, ltb}
use rfguard.Common.Lists.{length, count, count-le-length}
use rfguard.Common.Int.{pos}
use rfguard.Common.Float.{Float, IsOrdered, zero_f, one_f}
use rfguard.Common.Text.{text_eq}
use rfguard.Window.{EventEntry, WindowState, metrics}
use rfguard.Window.Live.{live, failed, IsValid}
use rfguard.Window.Reference.{distinct_uids, reference, metrics-reference}

length-distinct_uids-le : (evs : List EventEntry) → length (distinct_uids evs) ≤ length evs
unfolding distinct_uids
length-distinct_uids-le [] = omega arith
length-distinct_uids-le (ev ∷ evs) = ground (arith, length-distinct_uids-le evs)

module _ {F : Type 0} ⦃d : Float F⦄ where
  -- Between 0 and 1.
  abbrev pub InUnit : F → Type 0
  InUnit x = (d.lt x zero_f ≡ false) × (d.lt one_f x ≡ false)

  abbrev share : ℕ → ℕ → F
  share k n = if ltb 0 n then d.div (d.of_int (pos k)) (d.of_int (pos n)) else zero_f

  share-InUnit : IsOrdered F → (k n : ℕ) → k ≤ n → InUnit (share k n)
  share-InUnit laws k n h = ground (
    arith,
    laws.div_mono (pos 0) (pos k) (pos n),
    laws.div_mono (pos k) (pos n) (pos n),
    laws.div_self (pos n),
    laws.zero_div (pos n),
    laws.lt_irrefl zero_f,
    laws.of_int_mono (pos 0) (pos 1),
  )

  -- The failure ratio and the UID diversity of a valid window lie between 0 and 1, if `float64` meets
  -- the laws of `IsOrdered`.
  pub metrics-InUnit :
      IsOrdered F → (w : WindowState) → IsValid w → InUnit (metrics w).fr × InUnit (metrics w).uds
  metrics-InUnit laws w v = rw (metrics-reference w v) (
      unfold reference in
      (
        share-InUnit laws (count failed (live w)) (length (live w))
            (count-le-length failed (live w)),
        share-InUnit laws (length (distinct_uids (live w))) (length (live w))
            (length-distinct_uids-le (live w)),
      ))
