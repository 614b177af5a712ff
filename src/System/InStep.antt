-- ===== src/System/InStep.antt =====
-- The manager and the engine stay in step whatever is asked of the API.
use rfguard.Common.Tests.{
  ◌≡◌, refl, ap, sym, ◌∙◌, Bool, true, false, not, Option, none, some, if◌then◌else◌,
}
use mathlib.Core.Path.{subst}
use rfguard.Common.Maps.{Distinct}
use rfguard.Common.Result.{Outcome, ok, err}
use rfguard.Common.Text.{text_eq}
use rfguard.Common.Clock.{Time}
use rfguard.Common.Float.{Float}
use rfguard.Config.{Config, AccessControlConfig}
use rfguard.Config.Load.{Codec, SaveError}
use rfguard.Config.Manager.{Disk, Manager, Write, get, update}
use rfguard.Config.Manager.Updated.{IsUpdated, update-IsUpdated}
use rfguard.Config.Manager.Kept.{with_access}
use rfguard.Access.{build_access_control}
use rfguard.Engine.{Engine, update_config, reset}
use rfguard.Api.Sanitize.{sanitize_reader_lists-IsClean}
use rfguard.Api.Server.{
  Request, Web, Response, Server, is_get, is_post, sanitized, Target, target, everything,
  alerts_only, metrics_only, unknown, status,
}
use rfguard.Api.Handlers.{
  handle_access_control, post_access_control, after_update, handle_clear, clear_target,
  clear_metrics, clear_alerts, reset_engine, handle_restart, serve_route, Route, to_status,
  to_metrics, to_alerts, to_access_control, to_clear, to_restart, to_ui, to_page, nowhere,
}

module _ {F : Type 0} where
  -- The engine works with the configuration that is in force, and its sets are built from it.
  pub record IsInStep (s : Server F) : Type 0 where
    pub has_engine : s.has_engine ≡ true
    pub same : get s.manager ≡ s.engine.cfg
    pub built : s.engine.access ≡ build_access_control s.engine.cfg.access_control
    pub black : Distinct s.engine.cfg.access_control.reader_blacklists
    pub white : Distinct s.engine.cfg.access_control.reader_whitelists

  -- Another engine with the same configuration and sets, and another disk.
  pub with_engine-IsInStep :
      (s : Server F) (e : Engine F)
      → e.cfg ≡ s.engine.cfg
      → e.access ≡ s.engine.access
      → IsInStep s
      → IsInStep (record s { engine = e })
  with_engine-IsInStep s e c a h = record {
    has_engine = h.has_engine;
    same = h.same ∙ sym c;
    built = a ∙ h.built ∙ ap (λ k. build_access_control k.access_control) (sym c);
    black = subst (λ k. Distinct k.access_control.reader_blacklists) (sym c) h.black;
    white = subst (λ k. Distinct k.access_control.reader_whitelists) (sym c) h.white;
  }

  choice-IsInStep :
      (b : Bool) (s t : Server F) → IsInStep s → IsInStep t → IsInStep (if b then s else t)
  choice-IsInStep true s t p q = p
  choice-IsInStep false s t p q = q

  answer-IsInStep :
      (b : Bool) (x y : Response F × Server F)
      → IsInStep x.1
      → IsInStep y.1
      → IsInStep (if b then x else y).1
  answer-IsInStep true x y p q = p
  answer-IsInStep false x y p q = q

  module _ (web : Web) where
    clear_metrics-IsInStep : (s : Server F) → IsInStep s → IsInStep (clear_metrics web s)
    clear_metrics-IsInStep s h =
        choice-IsInStep s.has_metrics _ s (with_engine-IsInStep s _ refl refl h) h

    clear_alerts-IsInStep : (s : Server F) → IsInStep s → IsInStep (clear_alerts web s)
    clear_alerts-IsInStep s h =
        choice-IsInStep s.has_alerts _ s (with_engine-IsInStep s _ refl refl h) h

    reset_engine-IsInStep : (s : Server F) → IsInStep s → IsInStep (reset_engine web s)
    unfolding reset
    reset_engine-IsInStep s h =
        choice-IsInStep s.has_engine _ s (with_engine-IsInStep s (reset s.engine) refl refl h) h

    clear_target-IsInStep :
        (t : Target) (s : Server F) → IsInStep s → IsInStep (clear_target web t s).1
    clear_target-IsInStep everything s h =
        clear_alerts-IsInStep (clear_metrics web s) (clear_metrics-IsInStep s h)
    clear_target-IsInStep alerts_only s h = clear_alerts-IsInStep s h
    clear_target-IsInStep metrics_only s h = clear_metrics-IsInStep s h
    clear_target-IsInStep unknown s h = h

    handle_clear-IsInStep :
        (r : Request) (s : Server F) → IsInStep s → IsInStep (handle_clear web r s).1
    unfolding handle_clear
    handle_clear-IsInStep r s h =
        answer-IsInStep (not (is_post r)) (status 405, s) _ h
          (clear_target-IsInStep (target (web.target_of r.body)) s h)

    handle_restart-IsInStep :
        (r : Request) (s : Server F) → IsInStep s → IsInStep (handle_restart web r s).1
    unfolding handle_restart
    handle_restart-IsInStep r s h =
        let fresh = reset_engine-IsInStep s h in
        let cleared = clear_metrics-IsInStep (reset_engine web s) fresh in
        answer-IsInStep (not (is_post r)) (status 405, s) _ h
          (clear_alerts-IsInStep (clear_metrics web (reset_engine web s)) cleared)

  module _ ⦃d : Float F⦄ (codec : Codec F) (write : Write) (web : Web) where
    after_update-IsInStep :
        (next : Config F) (s : Server F) (u : Outcome SaveError Bool × Manager F × Disk)
        → IsUpdated s.manager next u
        → Distinct next.access_control.reader_blacklists
        → Distinct next.access_control.reader_whitelists
        → IsInStep s
        → IsInStep (after_update web codec write next s u).1
    unfolding update_config
    after_update-IsInStep next s (err e, m, disk) k b w h = record {
      has_engine = h.has_engine;
      same = ap get k ∙ h.same;
      built = h.built;
      black = h.black;
      white = h.white;
    }
    after_update-IsInStep next s (ok o, m, disk) k b w h =
        rw h.has_engine (record { has_engine = refl; same = k; built = refl; black = b; white = w })

    post_access_control-IsInStep :
        (ac : Option AccessControlConfig) (s : Server F)
        → IsInStep s
        → IsInStep (post_access_control web codec write ac s).1
    unfolding sanitized
    post_access_control-IsInStep none s h = h
    post_access_control-IsInStep (some ac) s h =
        let next = with_access (sanitized ac) (get s.manager) in
        after_update-IsInStep next s (update codec write s.manager (some next) s.disk)
          (update-IsUpdated codec write s.manager next s.disk)
          (sanitize_reader_lists-IsClean ac.reader_blacklists).distinct
          (sanitize_reader_lists-IsClean ac.reader_whitelists).distinct h

    handle_access_control-IsInStep :
        (r : Request) (s : Server F)
        → IsInStep s
        → IsInStep (handle_access_control web codec write r s).1
    unfolding handle_access_control
    handle_access_control-IsInStep r s h =
        answer-IsInStep (is_get r) (_, s) _ h
          (answer-IsInStep (is_post r) _ (status 405, s)
            (answer-IsInStep r.body_fails (status 400, s) _ h
              (post_access_control-IsInStep (web.access_of r.body) s h))
            h)

    pub serve_route-IsInStep :
        (to : Route) (now : Time) (r : Request) (s : Server F)
        → IsInStep s
        → IsInStep (serve_route web codec write to now r s).1
    serve_route-IsInStep to_status now r s h = h
    serve_route-IsInStep to_metrics now r s h = h
    serve_route-IsInStep to_alerts now r s h = h
    serve_route-IsInStep to_access_control now r s h = handle_access_control-IsInStep r s h
    serve_route-IsInStep to_clear now r s h = handle_clear-IsInStep web r s h
    serve_route-IsInStep to_restart now r s h = handle_restart-IsInStep web r s h
    serve_route-IsInStep to_ui now r s h = h
    serve_route-IsInStep to_page now r s h = h
    serve_route-IsInStep nowhere now r s h = h
