-- ===== src/Window/Feed.antt =====
-- A window that is fed events in the order of time holds the events of the last `duration`.
use rfguard.Common.Float.{Float}
use rfguard.Window.Reference.{reference, metrics-reference}
use rfguard.Common.Tests.{
  sym, ap, ◌∙◌, suc, ◌≤◌, ◌<◌, ◌≡◌, refl, Bool, not, List, [], ◌∷◌, ◌++◌, arith, Bool-cases, inl,
  inr,
}
use mathlib.Core.Path.{subst}
use mathlib.Core.List.{append_assoc}
use rfguard.Common.Lists.{length, drop, filter, All, length-append, length-drop}
use rfguard.Common.Int.{◌≤ℤ◌, ◌-ℤ◌, max_int, -ℤ_parts, pos}
use rfguard.Common.Clock.{Time, Duration, before}
use rfguard.Window.{
  EventEntry, WindowState, add, evict, evict_loop, forget, compact, observe, new_window_state,
  metrics, feed,
}
use rfguard.Window.Live.{live, IsValid}
use rfguard.Window.Counters.{add-IsValid, live-add, new_window_state-IsValid}
use rfguard.Window.Evict.{evict-IsValid}
use rfguard.Window.Order.{InOrder, evict-InOrder}

-- The events that are not before the cutoff.
abbrev pub since : Time → List EventEntry → List EventEntry
since cutoff = filter (λ ev. not (before ev.timestamp cutoff))

-- The timestamp of the last event.
abbrev pub latest : EventEntry → List EventEntry → Time
latest ev [] = ev.timestamp
latest ev (next ∷ evs) = latest next evs

evict_loop_keeps :
    (cutoff : Time) (rest : List EventEntry) (w : WindowState)
    → (evict_loop cutoff rest w).events ≡ w.events
unfolding evict_loop forget
evict_loop_keeps cutoff [] w = refl
evict_loop_keeps cutoff (ev ∷ rest) w = ground (arith, evict_loop_keeps cutoff rest (forget w ev))

evict_loop-duration :
    (cutoff : Time) (rest : List EventEntry) (w : WindowState)
    → (evict_loop cutoff rest w).duration ≡ w.duration
unfolding evict_loop forget
evict_loop-duration cutoff [] w = refl
evict_loop-duration cutoff (ev ∷ rest) w =
    ground (arith, evict_loop-duration cutoff rest (forget w ev))

length-evict-le :
    (w : WindowState) (cutoff : Time) → length (evict w cutoff).events ≤ length w.events
unfolding evict compact
length-evict-le w cutoff =
    let after = evict_loop cutoff (drop w.head w.events) w in
    ground (
      arith,
      ap length (evict_loop_keeps cutoff (drop w.head w.events) w),
      length-drop after.head after.events,
    )

pub observe-duration : (w : WindowState) (ev : EventEntry) → (observe w ev).duration ≡ w.duration
unfolding observe add evict compact
observe-duration w ev =
    ground (arith, evict_loop-duration (ev.timestamp -ℤ w.duration) (drop w.head w.events) w)

length-observe-le :
    (w : WindowState) (ev : EventEntry) → length (observe w ev).events ≤ suc (length w.events)
unfolding observe add
length-observe-le w ev =
    let cutoff = ev.timestamp -ℤ w.duration in
    omega (arith, length-evict-le w cutoff, length-append (evict w cutoff).events (ev ∷ []))

-- Observing an event keeps a window valid, its counters the counts of its live events, while its slice
-- can grow.
pub observe-IsValid :
    (w : WindowState) (ev : EventEntry)
    → IsValid w
    → length w.events < max_int
    → IsValid (observe w ev)
observe-IsValid w ev v room =
    let cutoff = ev.timestamp -ℤ w.duration in
    unfold observe in
    add-IsValid (evict w cutoff) ev (evict-IsValid w cutoff v)
      (omega (arith, length-evict-le w cutoff, room))

All-filter {κ} :
    (P : EventEntry → Type κ) (p : EventEntry → Bool) (evs : List EventEntry)
    → All P evs
    → All P (filter p evs)
All-filter P p [] a = a
All-filter P p (ev ∷ evs) a = elim (Bool-cases (p ev)) [
  | inl t ↦ rw t (a.0, All-filter P p evs a.1)
  | inr f ↦ rw f (All-filter P p evs a.1)
]

filter-InOrder :
    (p : EventEntry → Bool) (evs : List EventEntry) → InOrder evs → InOrder (filter p evs)
filter-InOrder p [] o = o
filter-InOrder p (ev ∷ evs) o = elim (Bool-cases (p ev)) [
  | inl t ↦
      rw t
        (All-filter (λ later. ev.timestamp ≤ℤ later.timestamp) p evs o.0, filter-InOrder p evs o.1)
  | inr f ↦ rw f (filter-InOrder p evs o.1)
]

InOrder-append_left : (xs ys : List EventEntry) → InOrder (xs ++ ys) → InOrder xs
InOrder-append_left [] ys o = tt
InOrder-append_left (x ∷ xs) ys o = (left xs ys o.0, InOrder-append_left xs ys o.1)
  where
    left :
        (xs ys : List EventEntry)
        → All (λ later. x.timestamp ≤ℤ later.timestamp) (xs ++ ys)
        → All (λ later. x.timestamp ≤ℤ later.timestamp) xs
    left [] ys a = tt
    left (z ∷ zs) ys a = (a.0, left zs ys a.1)

-- A later cutoff after an earlier one.
since-since : (c e : Time) (evs : List EventEntry) → c ≤ℤ e → since e (since c evs) ≡ since e evs
since-since c e [] h = refl
since-since c e (ev ∷ evs) h = ground (arith, since-since c e evs h)

since-snoc :
    (c : Time) (evs : List EventEntry) (ev : EventEntry)
    → c ≤ℤ ev.timestamp
    → since c (evs ++ ev ∷ []) ≡ since c evs ++ ev ∷ []
since-snoc c [] ev h = ground arith
since-snoc c (x ∷ evs) ev h = ground (arith, since-snoc c evs ev h)

-- The window after a history, of which the last event is `t`.
record Holds (d : Duration) (history : List EventEntry) (cutoff : Time) (w : WindowState)
    : Type 0 where
  valid : IsValid w
  duration : w.duration ≡ d
  sized : length w.events ≤ length history
  holds : live w ≡ since cutoff history

observe-holds :
    (history : List EventEntry) (c : Time) (w : WindowState) (ev : EventEntry)
    → IsValid w
    → live w ≡ since c history
    → InOrder history
    → c ≤ℤ (ev.timestamp -ℤ w.duration)
    → pos 0 ≤ℤ w.duration
    → live (observe w ev) ≡ since (ev.timestamp -ℤ w.duration) (history ++ ev ∷ [])
observe-holds history c w ev v e o h k =
    let cutoff = ev.timestamp -ℤ w.duration in
    let tidy = evict-InOrder w cutoff (rw e (filter-InOrder _ history o)) in
    let older = ap (since cutoff) e ∙ since-since c cutoff history h in
    let newer = since-snoc cutoff history ev (omega (arith, -ℤ_parts ev.timestamp w.duration, k)) in
    unfold observe in
    (live-add (evict w cutoff) ev (evict-IsValid w cutoff v).within
      ∙ ap (λ xs. xs ++ ev ∷ []) (tidy ∙ older)
      ∙ sym newer)

observe-Holds :
    (d : Duration) (history : List EventEntry) (c : Time) (w : WindowState) (ev : EventEntry)
    → Holds d history c w
    → InOrder history
    → c ≤ℤ (ev.timestamp -ℤ d)
    → pos 0 ≤ℤ d
    → length history < max_int
    → Holds d (history ++ ev ∷ []) (ev.timestamp -ℤ d) (observe w ev)
observe-Holds d history c w ev s o h k room = record {
  valid = observe-IsValid w ev s.valid (omega (arith, s.sized, room));
  duration = observe-duration w ev ∙ s.duration;
  sized = omega (arith, length-observe-le w ev, s.sized, length-append history (ev ∷ []));
  holds =
      subst (λ e. live (observe w ev) ≡ since (ev.timestamp -ℤ e) (history ++ ev ∷ [])) s.duration
        (observe-holds history c w ev s.valid s.holds o
          (subst (λ e. c ≤ℤ (ev.timestamp -ℤ e)) (sym s.duration) h)
          (subst (λ e. pos 0 ≤ℤ e) (sym s.duration) k));
}

InOrder-append_right : (xs ys : List EventEntry) → InOrder (xs ++ ys) → InOrder ys
InOrder-append_right [] ys o = o
InOrder-append_right (x ∷ xs) ys o = InOrder-append_right xs ys o.1

cutoffs_grow :
    (d : Duration) (t : Time) (evs : List EventEntry)
    → All (λ later. t ≤ℤ later.timestamp) evs
    → All (λ later. (t -ℤ d) ≤ℤ (later.timestamp -ℤ d)) evs
cutoffs_grow d t [] a = tt
cutoffs_grow d t (ev ∷ evs) a =
    (omega (arith, a.0, -ℤ_parts t d, -ℤ_parts ev.timestamp d), cutoffs_grow d t evs a.1)

feed-Holds :
    (d : Duration) (history : List EventEntry) (c : Time) (w : WindowState) (ev : EventEntry)
    (evs : List EventEntry)
    → Holds d history c w
    → InOrder (history ++ ev ∷ evs)
    → c ≤ℤ (ev.timestamp -ℤ d)
    → pos 0 ≤ℤ d
    → length (history ++ ev ∷ evs) ≤ max_int
    → Holds d (history ++ ev ∷ evs) (latest ev evs -ℤ d) (feed w (ev ∷ evs))
unfolding feed
feed-Holds d history c w ev [] s o h k room =
    observe-Holds d history c w ev s (InOrder-append_left history (ev ∷ []) o) h k
      (omega (arith, room, length-append history (ev ∷ [])))
feed-Holds d history c w ev (next ∷ evs) s o h k room =
    let assoc = append_assoc history (ev ∷ []) (next ∷ evs) in
    let rest = InOrder-append_right history (ev ∷ next ∷ evs) o in
    let now =
      observe-Holds d history c w ev s (InOrder-append_left history (ev ∷ next ∷ evs) o) h k
        (omega (arith, room, length-append history (ev ∷ next ∷ evs))) in
    subst (λ all. Holds d all (latest next evs -ℤ d) (feed (observe w ev) (next ∷ evs))) assoc
      (feed-Holds d (history ++ ev ∷ []) (ev.timestamp -ℤ d) (observe w ev) next evs now
        (rw assoc o) (cutoffs_grow d ev.timestamp (next ∷ evs) rest.0).0 k (rw assoc room))

-- A new window that is fed events in the order of time, no more than a slice can hold, keeps exactly
-- those that are not older than the last one by more than its duration.
pub live-feed :
    (d : Duration) (ev : EventEntry) (evs : List EventEntry)
    → pos 0 ≤ℤ d
    → InOrder (ev ∷ evs)
    → length (ev ∷ evs) ≤ max_int
    → IsValid (feed (new_window_state d) (ev ∷ evs))
      × (live (feed (new_window_state d) (ev ∷ evs)) ≡ since (latest ev evs -ℤ d) (ev ∷ evs))
      × ((feed (new_window_state d) (ev ∷ evs)).duration ≡ d)
live-feed d ev evs k o room =
    let start : Holds d [] (ev.timestamp -ℤ d) (new_window_state d) = record {
      valid = new_window_state-IsValid d;
      duration = unfold new_window_state in refl;
      sized = unfold new_window_state in omega arith;
      holds = unfold new_window_state in refl;
    } in
    let end =
      feed-Holds d [] (ev.timestamp -ℤ d) (new_window_state d) ev evs start o (omega arith) k
        room in
    (end.valid, end.holds, end.duration)

module _ {F : Type 0} ⦃f : Float F⦄ where
  -- The metrics of a new window that has been fed events in the order of time, no more than a slice
  -- can hold, are those of the events that are not older than the last one by more than the window's
  -- duration, counted afresh.
  pub metrics-feed :
      (d : Duration) (ev : EventEntry) (evs : List EventEntry)
      → pos 0 ≤ℤ d
      → InOrder (ev ∷ evs)
      → length (ev ∷ evs) ≤ max_int
      → metrics {F = F} (feed (new_window_state d) (ev ∷ evs))
        ≡ reference d (since (latest ev evs -ℤ d) (ev ∷ evs))
  metrics-feed d ev evs k o room =
      let (valid, holds, same) = live-feed d ev evs k o room in
      metrics-reference (feed (new_window_state d) (ev ∷ evs)) valid ∙ rw (holds, same)
