-- ===== src/Window/Counters.antt =====
-- `add` and `evict` keep the counters equal to what the window holds.
use rfguard.Common.Tests.{
  ℕ, zero, suc, ◌≤◌, ◌<◌, ◌≡◌, refl, List, [], ◌∷◌, ◌++◌, none, arith, if◌then◌else◌,
}
use rfguard.Common.Eq.{◌==◌}
use rfguard.Common.Lists.{
  length, count, length-append, length-drop, drop-append, count-append, count-le-length,
}
use rfguard.Common.Text.{Text, is_empty, text_eq, eq_text_iff}
use rfguard.Common.Int.{ℤ, pos, max_int, inc_int, dec_int, inc_int-pos}
use rfguard.Common.Maps.{
  Map, lookup, lookup-insert, lookup-delete, insert-Distinct, delete-Distinct,
}
use rfguard.Window.{
  EventEntry, WindowState, or_zero, count_up, count_down, add_uid, drop_uid, add, new_window_state,
}
use rfguard.Window.Live.{live, failed, uses, entry, tally, Counts, IsValid}

inc-entry : (n : ℕ) → n < max_int → inc_int (or_zero (entry n)) ≡ pos (suc n)
inc-entry zero h = inc_int-pos 0 h
inc-entry (suc n) h = inc_int-pos (suc n) h

tally-snoc :
    (uid : Text) (evs : List EventEntry) (ev : EventEntry)
    → tally uid (evs ++ ev ∷ []) ≡ (
        if is_empty uid
        then none
        else entry (if ev.uid == uid then suc (count (uses uid) evs) else count (uses uid) evs))
tally-snoc uid evs ev = ground (arith, count-append (uses uid) evs (ev ∷ []))

add_uid-tally :
    (evs : List EventEntry) (ev : EventEntry) (m : Map Text ℤ)
    → length evs < max_int
    → ((uid : Text) → lookup uid m ≡ tally uid evs)
    → (uid : Text) → lookup uid (add_uid ev.uid m) ≡ tally uid (evs ++ ev ∷ [])
unfolding add_uid
add_uid-tally evs ev m small h uid = ground (
  arith,
  h uid,
  h ev.uid,
  tally-snoc uid evs ev,
  count-le-length (uses ev.uid) evs,
  inc-entry (count (uses ev.uid) evs),
  lookup-insert ev.uid uid (inc_int (or_zero (lookup ev.uid m))) m,
  eq_text_iff ev.uid uid,
)

drop_uid-tally :
    (ev : EventEntry) (evs : List EventEntry) (m : Map Text ℤ)
    → ((uid : Text) → lookup uid m ≡ tally uid (ev ∷ evs))
    → (uid : Text) → lookup uid (drop_uid ev.uid m) ≡ tally uid evs
unfolding drop_uid dec_int
drop_uid-tally ev evs m h uid = ground (
  arith,
  h uid,
  h ev.uid,
  lookup-insert ev.uid uid (dec_int (or_zero (lookup ev.uid m))) m,
  lookup-delete ev.uid uid m,
  eq_text_iff ev.uid uid,
  eq_text_iff ev.uid ev.uid,
)

pub add-Counts :
    (evs : List EventEntry) (ev : EventEntry) (a f : ℤ) (m : Map Text ℤ)
    → length evs < max_int
    → Counts evs a f m
    → Counts (evs ++ ev ∷ []) (inc_int a) (count_up ev.result f) (add_uid ev.uid m)
add-Counts evs ev a f m small c = record {
  attempts_count =
      ground (arith, c.attempts_count, length-append evs (ev ∷ []), inc_int-pos (length evs));
  failures_count = ground (
    arith,
    c.failures_count,
    count-append failed evs (ev ∷ []),
    count-le-length failed evs,
    inc_int-pos (count failed evs),
  );
  uids_count = add_uid-tally evs ev m small c.uids_count;
  distinct =
      unfold add_uid in
      ground (
        arith,
        insert-Distinct ev.uid (inc_int (or_zero (lookup ev.uid m))) m c.distinct,
        c.distinct,
      );
}

pub drop-Counts :
    (ev : EventEntry) (evs : List EventEntry) (a f : ℤ) (m : Map Text ℤ)
    → Counts (ev ∷ evs) a f m
    → Counts evs (dec_int a) (count_down ev.result f) (drop_uid ev.uid m)
drop-Counts ev evs a f m c = record {
  attempts_count = unfold dec_int in ground (arith, c.attempts_count);
  failures_count = unfold dec_int in ground (arith, c.failures_count);
  uids_count = drop_uid-tally ev evs m c.uids_count;
  distinct =
      unfold drop_uid in
      ground (
        arith,
        insert-Distinct ev.uid (dec_int (or_zero (lookup ev.uid m))) m c.distinct,
        delete-Distinct ev.uid m c.distinct,
        c.distinct,
      );
}

pub new_window_state-IsValid : (d : ℤ) → IsValid (new_window_state d)
unfolding new_window_state lookup
new_window_state-IsValid d = record {
  within = omega arith;
  sized = omega arith;
  counts = record {
    attempts_count = refl;
    failures_count = refl;
    uids_count = λ uid. ground arith;
    distinct = tt;
  };
}

pub live-add :
    (w : WindowState) (ev : EventEntry)
    → w.head ≤ length w.events
    → live (add w ev) ≡ live w ++ ev ∷ []
unfolding add
live-add w ev h = drop-append w.head w.events (ev ∷ []) h

pub length-live-le : (w : WindowState) → length (live w) ≤ length w.events
length-live-le w = omega (arith, length-drop w.head w.events)

-- Adding an event keeps the counters right, while the slice can grow.
pub add-IsValid :
    (w : WindowState) (ev : EventEntry) → IsValid w → length w.events < max_int → IsValid (add w ev)
add-IsValid w ev v room = record {
  within = unfold add in omega (arith, v.within, length-append w.events (ev ∷ []));
  sized = unfold add in omega (arith, room, length-append w.events (ev ∷ []));
  counts = rw (live-add w ev v.within) (
      unfold add in
      add-Counts (live w) ev w.attempts w.failures w.uid_counts (omega (arith, length-live-le w))
        v.counts);
}
