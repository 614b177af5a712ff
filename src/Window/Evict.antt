-- ===== src/Window/Evict.antt =====
-- `evict` drops the leading events that are older than the cutoff, and nothing else.
use rfguard.Common.Tests.{
  suc, ◌*◌, ◌≤◌, ◌≡◌, refl, ap, ◌∙◌, Bool, List, [], ◌∷◌, arith, leb, ltb, ◌&&◌, Bool-cases, inl,
  inr,
}
use rfguard.Common.Lists.{length, drop_while, length-drop, drop-suc}
use rfguard.Common.Clock.{Time, before}
use rfguard.Window.{EventEntry, WindowState, forget, evict_loop, compact, evict}
use rfguard.Window.Live.{live, Counts, IsValid}
use rfguard.Window.Counters.{drop-Counts}

abbrev pub is_old : Time → EventEntry → Bool
is_old cutoff ev = before ev.timestamp cutoff

head_in_range :
    (w : WindowState) (ev : EventEntry) (rest : List EventEntry)
    → live w ≡ ev ∷ rest
    → suc w.head ≤ length w.events
head_in_range w ev rest e =
    let same = ap length e in omega (arith, same, length-drop w.head w.events)

forget-IsValid :
    (w : WindowState) (ev : EventEntry) (rest : List EventEntry)
    → live w ≡ ev ∷ rest
    → IsValid w
    → IsValid (forget w ev)
forget-IsValid w ev rest e v =
    let c : Counts (ev ∷ rest) w.attempts w.failures w.uid_counts = rw e at v.counts in
    record {
      within = unfold forget in head_in_range w ev rest e;
      sized = unfold forget in v.sized;
      counts =
          unfold forget in
          rw (drop-suc w.head w.events ev rest e)
            (drop-Counts ev rest w.attempts w.failures w.uid_counts c);
    }

live-forget :
    (w : WindowState) (ev : EventEntry) (rest : List EventEntry)
    → live w ≡ ev ∷ rest
    → live (forget w ev) ≡ rest
unfolding forget
live-forget w ev rest e = drop-suc w.head w.events ev rest e

evict_loop-IsValid :
    (cutoff : Time) (rest : List EventEntry) (w : WindowState)
    → live w ≡ rest
    → IsValid w
    → IsValid (evict_loop cutoff rest w)
unfolding evict_loop
evict_loop-IsValid cutoff [] w e v = v
evict_loop-IsValid cutoff (ev ∷ rest) w e v = elim (Bool-cases (is_old cutoff ev)) [
  | inl old ↦ rw old (
      evict_loop-IsValid cutoff rest (forget w ev) (live-forget w ev rest e)
        (forget-IsValid w ev rest e v))
  | inr kept ↦ rw kept v
]

live-evict_loop :
    (cutoff : Time) (rest : List EventEntry) (w : WindowState)
    → live w ≡ rest
    → live (evict_loop cutoff rest w) ≡ drop_while (is_old cutoff) rest
unfolding evict_loop
live-evict_loop cutoff [] w e = e
live-evict_loop cutoff (ev ∷ rest) w e = elim (Bool-cases (is_old cutoff ev)) [
  | inl old ↦ rw (old, live-evict_loop cutoff rest (forget w ev) (live-forget w ev rest e)) refl
  | inr kept ↦ rw kept e
]

live-compact : (w : WindowState) → live (compact w) ≡ live w
unfolding compact
live-compact w = elim (Bool-cases (ltb 0 w.head && leb (length w.events) (w.head * 2))) [
  | inl t ↦ rw t refl
  | inr f ↦ rw f refl
]

compact-IsValid : (w : WindowState) → IsValid w → IsValid (compact w)
unfolding compact
compact-IsValid w v = elim (Bool-cases (ltb 0 w.head && leb (length w.events) (w.head * 2))) [
  | inl t ↦ rw t (record {
    within = omega arith;
    sized = omega (arith, v.sized, length-drop w.head w.events);
    counts = v.counts;
  })
  | inr f ↦ rw f v
]

-- What stays is what the loop has not dropped, also when the slice is copied.
pub live-evict :
    (w : WindowState) (cutoff : Time) → live (evict w cutoff) ≡ drop_while (is_old cutoff) (live w)
unfolding evict
live-evict w cutoff = live-compact _ ∙ live-evict_loop cutoff (live w) w refl

pub evict-IsValid : (w : WindowState) (cutoff : Time) → IsValid w → IsValid (evict w cutoff)
unfolding evict
evict-IsValid w cutoff v = compact-IsValid _ (evict_loop-IsValid cutoff (live w) w refl v)
