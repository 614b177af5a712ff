-- ===== src/Window/Order.antt =====
-- Windows filled in the order of time: `evict` then keeps just the events since the cutoff.
use rfguard.Common.Tests.{◌≡◌, refl, ◌∙◌, Bool, not, List, [], ◌∷◌, arith}
use rfguard.Common.Lists.{filter, drop_while, All}
use rfguard.Common.Int.{◌≤ℤ◌}
use rfguard.Common.Clock.{Time, before}
use rfguard.Window.{EventEntry, WindowState, evict}
use rfguard.Window.Live.{live}
use rfguard.Window.Evict.{is_old, live-evict}

-- Timestamps do not fall along the list.
abbrev pub InOrder : List EventEntry → Type 0
InOrder [] = Unit {0}
InOrder (ev ∷ evs) = All (λ later. ev.timestamp ≤ℤ later.timestamp) evs × InOrder evs

abbrev kept : Time → EventEntry → Bool
kept cutoff ev = not (is_old cutoff ev)

filter_later :
    (cutoff t : Time) (evs : List EventEntry)
    → cutoff ≤ℤ t
    → All (λ later. t ≤ℤ later.timestamp) evs
    → filter (kept cutoff) evs ≡ evs
filter_later cutoff t [] h a = refl
filter_later cutoff t (ev ∷ evs) h a = ground (arith, filter_later cutoff t evs h a.1)

drop_while-filter :
    (cutoff : Time) (evs : List EventEntry)
    → InOrder evs
    → drop_while (is_old cutoff) evs ≡ filter (kept cutoff) evs
drop_while-filter cutoff [] o = refl
drop_while-filter cutoff (ev ∷ evs) o =
    ground (arith, drop_while-filter cutoff evs o.1, filter_later cutoff ev.timestamp evs)

-- In a window in the order of time, `evict` keeps exactly the events that are not before the cutoff.
pub evict-InOrder :
    (w : WindowState) (cutoff : Time)
    → InOrder (live w)
    → live (evict w cutoff) ≡ filter (λ ev. not (before ev.timestamp cutoff)) (live w)
evict-InOrder w cutoff o = live-evict w cutoff ∙ drop_while-filter cutoff (live w) o
