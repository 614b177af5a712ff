-- ===== src/System/Shown.antt =====
-- The API shows what the engine raised.
use rfguard.Common.Tests.{ℕ, ◌<◌, ◌≡◌, refl, ap, sym, ◌∙◌, true, List, [], ◌∷◌, ◌++◌, if◌then◌else◌}
use Prim.Native.Nat.{min}
use rfguard.Common.Text.{is_empty}
use rfguard.Common.Lists.{length}
use rfguard.Common.Int.{ℤ, pos, pos_part, leb_ℤ}
use rfguard.Common.Clock.{Time}
use rfguard.Common.Float.{Float}
use rfguard.Model.{NormalizedEvent, Alert}
use rfguard.Engine.{Engine, Platform}
use rfguard.Engine.Process.{process_event}
use rfguard.Engine.Emitted.{add_all-append}
use rfguard.Engine.Returned.{process_event-Returned}
use rfguard.Alerts.{new_store, add_all, effective_limit, list}
use rfguard.Alerts.Recent.{last_of, list-add_all}
use rfguard.Api.Server.{Request, Web, Server, alerts_of, is_get, atoi, or_zero}
use rfguard.Api.Handlers.{handle_alerts, counted_alerts}

module _ {F : Type 0} ⦃d : Float F⦄ (clock : ℕ → Time) (platform : Platform) where
  -- All the alerts that some events raise, from a state of the engine on.
  unfoldable pub raised : List NormalizedEvent → Engine F → List (Alert F)
  raised [] e = []
  raised (ev ∷ events) e =
      let now = process_event clock platform ev e in now.0 ++ raised events now.1

  -- The engine after some events.
  unfoldable pub observe_all : List NormalizedEvent → Engine F → Engine F
  observe_all [] e = e
  observe_all (ev ∷ events) e = observe_all events (process_event clock platform ev e).1

  alerts-observe_all :
      (events : List NormalizedEvent) (e : Engine F)
      → (observe_all events e).alerts ≡ add_all e.alerts (raised events e)
  unfolding observe_all raised add_all
  alerts-observe_all [] e = refl
  alerts-observe_all (ev ∷ events) e =
      let now = process_event clock platform ev e in
      alerts-observe_all events now.1
      ∙ ap (λ s. add_all s (raised events now.1)) (process_event-Returned clock platform ev e).0
      ∙ sym (add_all-append e.alerts now.0 (raised events now.1))

  -- What `/alerts` shows: after any events, from an empty store of alerts on, the answer to a GET without
  -- `since` has the last of all the alerts that these events raised, in order, as many as the query's
  -- limit asks for and the store's limit `n` allows; a limit that is no positive number asks for `n`.
  pub handle_alerts-raised :
      (web : Web) (r : Request) (s : Server F) (limit : ℤ) (n : ℕ) (events : List NormalizedEvent)
      → is_get r ≡ true
      → is_empty r.since ≡ true
      → s.has_alerts ≡ true
      → s.engine.alerts ≡ new_store limit
      → effective_limit limit ≡ pos n
      → 0 < n
      → let asked = or_zero (atoi r.limit) in
        let shown =
          last_of
            (if leb_ℤ asked (pos 0) then n else min n (pos_part asked))
            (raised events s.engine) in
        handle_alerts web r (record s { engine = observe_all events s.engine })
        ≡ alerts_of shown (length shown)
  unfolding handle_alerts
  handle_alerts-raised web r s limit n events g e has fresh eff k =
      let asked = or_zero (atoi r.limit) in
      let held =
        alerts-observe_all events s.engine ∙ ap (λ a. add_all a (raised events s.engine)) fresh in
      rw (handle_alerts, g, e, has)
        (ap (counted_alerts web)
          (ap (λ a. list a asked) held ∙ list-add_all limit asked n (raised events s.engine) eff k))
