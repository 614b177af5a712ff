-- ===== src/System/Judged.antt =====
-- What holds after any requests and events.
use rfguard.Common.Tests.{ℕ, suc, if◌then◌else◌, ◌≡◌, ◌≢◌, ap, sym, ◌∙◌, true, [], none}
use mathlib.Core.Path.{subst}
use rfguard.Common.Maps.{Distinct}
use rfguard.Common.Text.{text_eq}
use rfguard.Common.Int.{pos}
use rfguard.Common.Clock.{Time}
use rfguard.Common.Float.{Float}
use rfguard.Model.{NormalizedEvent}
use rfguard.Config.Load.{Codec}
use rfguard.Config.Manager.{Write, get}
use rfguard.Access.{normalize_uid, build_access_control}
use rfguard.Engine.{Platform}
use rfguard.Engine.Monad.{cooldown_allow}
use rfguard.Engine.Evaluate.{evaluate_access}
use rfguard.Engine.Process.{process_event}
use rfguard.Engine.Returned.{process_event-Returned, is_duplicate-Keeps}
use rfguard.Engine.Accessed.{access_kinds, listed, clamped, tested, process_event-kinds}
use rfguard.Engine.Admission.{verdict, kind_of, evaluate_access_lem}
use rfguard.Api.Server.{Web, Server}
use rfguard.Api.Handlers.{serve, route}
use rfguard.System.{Reached, started, asked, observed}
use rfguard.System.InStep.{IsInStep, with_engine-IsInStep, serve_route-IsInStep}

module _ {F : Type 0} ⦃d : Float F⦄ (codec : Codec F) (write : Write) (web : Web) (clock : ℕ → Time)
    (platform : Platform) where
  Reached-IsInStep :
      (start s : Server F)
      → IsInStep start
      → Reached codec write web clock platform start s
      → IsInStep s
  unfolding serve
  Reached-IsInStep start _ h started = h
  Reached-IsInStep start _ h (asked now r s past) =
      serve_route-IsInStep codec write web (route r.path) now r s (Reached-IsInStep start s h past)
  Reached-IsInStep start _ h (observed ev s past) =
      let kept = process_event-Returned clock platform ev s.engine in
      with_engine-IsInStep s (process_event clock platform ev s.engine).1 kept.2 kept.3
        (Reached-IsInStep start s h past)

  -- The lists in force decide: if the program starts with an engine that is built from the manager's
  -- configuration, then after any requests and any events, in any order, `ProcessEvent` of an event
  -- with a UID raises, of the two alerts about the access control, exactly the one that the enabled
  -- configuration of the manager demands, if the event is no duplicate and the cooldown lets the alert
  -- through, and else none.
  pub process_event-Reached :
      (start s : Server F) (ev : NormalizedEvent)
      → IsInStep start
      → Reached codec write web clock platform start s
      → (get s.manager).access_control.enabled ≡ true
      → normalize_uid ev.uid ≢ []
      → let cfg = get s.manager in
        let test = tested clock platform ev s.engine in
        access_kinds (process_event clock platform ev s.engine).0 ≡ (
          if test.0
          then []
          else listed (
              if (cooldown_allow clock ev.reader_id (pos 0) cfg.detection.alert_cooldown test.1).0
              then verdict cfg.access_control ev.reader_id (normalize_uid ev.uid)
              else none))
  process_event-Reached start s ev first past on nonempty =
      let now = Reached-IsInStep start s first past in
      let test = tested clock platform ev s.engine in
      let kept =
        is_duplicate-Keeps clock platform (clamped clock platform ev s.engine)
          s.engine.cfg.detection.dedupe_window
          (record s.engine { readings = suc s.engine.readings }) in
      process_event-kinds clock platform ev s.engine
      ∙ ap (λ k. if test.0 then [] else listed k)
          (ap
              (λ cfg.
                kind_of (evaluate_access clock cfg (clamped clock platform ev s.engine) test.1).0)
              (sym now.same)
            ∙ evaluate_access_lem clock (get s.manager) (get s.manager).access_control
                (clamped clock platform ev s.engine) test.1
                (kept.4
                  ∙ now.built
                  ∙ ap (λ k. build_access_control k.access_control) (sym now.same))
                on nonempty
                (subst (λ k. Distinct k.access_control.reader_blacklists) (sym now.same) now.black)
                (subst (λ k. Distinct k.access_control.reader_whitelists) (sym now.same) now.white))
