-- ===== src/Window/Reference.antt =====
-- The metrics of a list of events, computed from nothing but the list, and the theorem that the
-- window's counters give the same.
use native.Mathlib.Nat.{add-zero}
use rfguard.Common.Tests.{◌≡◌, ◌||◌, List, [], ◌∷◌, arith, if◌then◌else◌, ltb}
use rfguard.Common.Lists.{length, count}
use rfguard.Common.Keys.{contains, Unique, is_some, has-lookup, length-eq_of_keys}
use rfguard.Common.Text.{Text, is_empty, text_eq, eq_text_iff}
use rfguard.Common.Int.{ℤ, pos}
use rfguard.Common.Maps.{Map}
use rfguard.Common.Float.{Float, zero_f}
use rfguard.Common.Clock.{Duration, seconds}
use rfguard.Model.{WindowMetrics}
use rfguard.Window.{EventEntry, WindowState, variance_from, variance_delta, metrics}
use rfguard.Window.Live.{live, failed, tally, Counts, IsValid}

-- The non-empty UIDs of the events, each once.
unfoldable pub distinct_uids : List EventEntry → List Text
distinct_uids [] = []
distinct_uids (ev ∷ evs) =
    let rest = distinct_uids evs in
    if is_empty ev.uid || contains ev.uid rest then rest else ev.uid ∷ rest

distinct_uids-Unique : (evs : List EventEntry) → Unique (distinct_uids evs)
unfolding distinct_uids
distinct_uids-Unique [] = tt
distinct_uids-Unique (ev ∷ evs) = ground (arith, distinct_uids-Unique evs)

contains-distinct_uids :
    (uid : Text) (evs : List EventEntry)
    → contains uid (distinct_uids evs) ≡ is_some (tally uid evs)
unfolding distinct_uids
contains-distinct_uids uid [] = ground arith
contains-distinct_uids uid (ev ∷ evs) =
    ground (arith, contains-distinct_uids uid evs, eq_text_iff ev.uid uid)

length-uid-Counts :
    (evs : List EventEntry) (a f : ℤ) (m : Map Text ℤ)
    → Counts evs a f m
    → length m ≡ length (distinct_uids evs)
length-uid-Counts evs a f m c =
    length-eq_of_keys (distinct_uids evs) m (distinct_uids-Unique evs) c.distinct
      (λ k. ground (arith, has-lookup k m, c.uids_count k, contains-distinct_uids k evs))

module _ {F : Type 0} ⦃d : Float F⦄ where
  -- What the documentation says of the metrics: rates of counts over the events of the window.
  unfoldable pub reference : Duration → List EventEntry → WindowMetrics F
  unfolding variance_from
  reference duration evs =
      let busy = ltb 0 (length evs) in
      let n = d.of_int (pos (length evs)) in
      record {
        window_sec = d.to_int (seconds duration);
        attempts = pos (length evs);
        failures = pos (count failed evs);
        aps = if busy then d.div n (seconds duration) else zero_f;
        fr = if busy then d.div (d.of_int (pos (count failed evs))) n else zero_f;
        uds = if busy then d.div (d.of_int (pos (length (distinct_uids evs)))) n else zero_f;
        tv = variance_from evs;
      }

  -- The incremental metrics of a valid window are those of its live events, counted afresh.
  pub metrics-reference : (w : WindowState) → IsValid w → metrics w ≡ reference w.duration (live w)
  unfolding metrics reference variance_delta
  metrics-reference w v =
      let c = v.counts in
      rw (
        c.attempts_count,
        c.failures_count,
        length-uid-Counts _ _ _ _ c,
        add-zero (length (live w)),
      )
