-- ===== src/Tests/WindowRuns.antt =====
-- Windows, the duplicate cache and the cooldown on small inputs.
use rfguard.Common.Tests.{◌≡◌, refl, true, false, List, [], ◌∷◌, none, arith}
use rfguard.Common.Lists.{drop_while}
use rfguard.Common.Text.{codes}
use rfguard.Common.Int.{pos, ◌-ℤ◌}
use rfguard.Common.Maps.{lookup, insert}
use rfguard.Common.Clock.{second, sub_time}
use rfguard.Common.Fixed.{fixed_float, Fixed-IsOrdered}
use rfguard.Model.{success, failure}
use rfguard.Window.{EventEntry, WindowState, new_window_state, evict, metrics, observe, feed}
use rfguard.Window
use rfguard.Window.Live.{live, IsValid}
use rfguard.Window.Evict.{is_old, live-evict}
use rfguard.Window.Reference.{reference, metrics-reference}
use rfguard.Window.Ratios.{InUnit, metrics-InUnit}
use rfguard.Window.Feed.{since, latest, observe-IsValid, live-feed, metrics-feed}
use rfguard.Dedupe.{seen, new_dedupe_cache}
use rfguard.Dedupe.Answers.{run-answers}
use rfguard.Dedupe.Answers
use rfguard.Cooldown.{new_cooldown}
use rfguard.Cooldown.Keys.{window_key-injective}
use rfguard.Cooldown.Spacing.{run-answers_sent, passed-Spaced, Spaced}
use rfguard.Cooldown.Spacing
use rfguard.Tests.{millis}

abbrev first : EventEntry
first = record { timestamp = millis 0; uid = codes "A1"; result = failure }

abbrev later : List EventEntry
later =
    record { timestamp = millis 400; uid = codes "B2"; result = success }
    ∷ record { timestamp = millis 1200; uid = codes "A1"; result = failure }
    ∷ []

abbrev last_one : EventEntry
last_one = record { timestamp = millis 2000; uid = []; result = failure }

abbrev fed : WindowState
fed = feed (new_window_state (pos second)) (first ∷ later)

-- The first event is older than the last by more than a second.
fed_holds : live fed ≡ later
unfolding feed observe evict new_window_state Window.add Window.compact Window.evict_loop ◌-ℤ◌
    Window.forget
fed_holds = refl

metrics-feed_example :
    metrics ⦃d = fixed_float⦄ fed
    ≡ reference (pos second) (since (latest first later -ℤ (pos second)) (first ∷ later))
metrics-feed_example =
    metrics-feed ⦃f = fixed_float⦄ (pos second) first later (omega arith) (ground arith)
      (omega arith)

fed-IsValid : IsValid fed
fed-IsValid = (live-feed (pos second) first later (omega arith) (ground arith) (omega arith)).0

observe-IsValid_example : IsValid (observe fed last_one)
unfolding feed observe evict new_window_state Window.add Window.compact Window.evict_loop ◌-ℤ◌
    Window.forget
observe-IsValid_example = observe-IsValid fed last_one fed-IsValid (ground arith)

metrics-reference_example : metrics ⦃d = fixed_float⦄ fed ≡ reference fed.duration (live fed)
metrics-reference_example = metrics-reference fed fed-IsValid

metrics-InUnit_example :
    InUnit (metrics ⦃d = fixed_float⦄ fed).fr × InUnit (metrics ⦃d = fixed_float⦄ fed).uds
metrics-InUnit_example = metrics-InUnit Fixed-IsOrdered fed fed-IsValid

live-evict_example : live (evict fed (millis 900)) ≡ drop_while (is_old (millis 900)) (live fed)
live-evict_example = live-evict fed (millis 900)

abbrev calls : Answers.Calls
calls =
    (codes "a", millis 0)
    ∷ (codes "b", millis 1)
    ∷ (codes "a", millis 900)
    ∷ (codes "a", millis 1200)
    ∷ []

run-answers_example :
    Answers.run (pos second) new_dedupe_cache calls ≡ Answers.answers (pos second) [] calls
run-answers_example = run-answers (pos second) (millis 0) calls (ground arith)

-- The second event with the key is a duplicate; the third comes too late to be one.
seen_runs : Answers.run (pos second) new_dedupe_cache calls ≡ false ∷ false ∷ true ∷ false ∷ []
unfolding Answers.run seen lookup new_dedupe_cache insert sub_time ◌-ℤ◌
seen_runs = refl

passed-Spaced_example :
    Spaced (codes "a") (pos second) none (Spacing.passed (pos second) new_cooldown calls)
passed-Spaced_example = passed-Spaced (codes "a") (pos second) calls (omega arith)

window_key-injective_example : (codes "r|1" ≡ codes "r|1") × (pos 60 ≡ pos 60)
window_key-injective_example =
    window_key-injective (codes "r|1") (codes "r|1") (pos 60) (pos 60) refl
