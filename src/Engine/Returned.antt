-- ===== src/Engine/Returned.antt =====
-- What `ProcessEvent` returns is what it has stored.
use mathlib.Core.List.{append-nil}
use mathlib.Core.Path.{subst}
use rfguard.Common.Tests.{
  ℕ, suc, ◌≡◌, ap, ◌∙◌, Bool, true, false, not, ◌||◌, List, [], ◌∷◌, ◌++◌, Option, none, some,
  if◌then◌else◌, arith, Option-cases, inl, inr,
}
use rfguard.Common.Text.{Text, codes, text_eq, is_empty}
use rfguard.Common.Int.{ℤ, int_eq, pos, eqb_ℤ, ltb_ℤ}
use rfguard.Common.Maps.{Map, lookup, insert}
use rfguard.Common.Clock.{Time, Duration}
use rfguard.Common.Float.{Float}
use rfguard.Model.{is_failure, NormalizedEvent, WindowMetrics, Alert}
use rfguard.Config.{Config, is_nil}
use rfguard.Window.{WindowState, observe}
use rfguard.Window
use rfguard.Access.{AccessControlSet, normalize_uid, is_blacklisted}
use rfguard.Alerts
use rfguard.Engine.{Engine, Platform, ReaderState}
use rfguard.Engine.Clamp.{clamp_timestamp}
use rfguard.Engine.Monad.{M, ◌>>=◌, return, now_utc}
use rfguard.Engine.Rules.{rules_of}
use rfguard.Engine.Evaluate.{
  raise_window, evaluate, stamp, raise_access, check_access, evaluate_access, raise_auth,
  evaluate_auth_streak, auth_key, repeated_auth_failure, set_streak, streak_after,
}
use rfguard.Engine.Process.{
  get_reader, emit, is_duplicate, observe_window, observe_windows, entry_of, process_fresh,
  process_event,
}
use rfguard.Engine.Emitted.{
  saved_alerts, Emits, Silent, Emits-trans, Emits-of_Silent, Silent-refl, now_utc-Silent,
  cooldown_allow-Silent, cooldown_allow_key-Silent, store_metrics-Silent, store_alert-Emits,
  get_reader-Silent, put_reader-Silent,
}

module _ {F : Type 0} ⦃d : Float F⦄ where
  Silent-trans : (a b c : Engine F) → Silent a b → Silent b c → Silent a c
  Silent-trans a b c p q = record {
    alerts = q.alerts ∙ p.alerts;
    saved = q.saved ∙ p.saved;
    has_store = q.has_store ∙ p.has_store;
    cfg = q.cfg ∙ p.cfg;
    access = q.access ∙ p.access;
    de_dupe = q.de_dupe ∙ p.de_dupe;
  }

  -- A step under a test is silent if both branches are.
  Silent-if :
      {A : Type 0} (b : Bool) (m n : M F A) (e f : Engine F)
      → Silent e (m f).1
      → Silent e (n f).1
      → Silent e ((if b then m else n) f).1
  Silent-if true m n e f p q = p
  Silent-if false m n e f p q = q

  Silent-either :
      {A : Type 0} (b : Bool) (e : Engine F) (x y : A × Engine F)
      → Silent e x.1
      → Silent e y.1
      → Silent e (if b then x else y).1
  Silent-either true e x y p q = p
  Silent-either false e x y p q = q

  Silent-Emits : (a b c : Engine F) (xs : List (Alert F)) → Silent a b → Emits b c xs → Emits a c xs
  Silent-Emits a b c xs p q = Emits-trans a b c [] xs (Emits-of_Silent a b p) q

  Emits-Silent : (a b c : Engine F) (xs : List (Alert F)) → Emits a b xs → Silent b c → Emits a c xs
  Emits-Silent a b c xs p q =
      subst (λ ys. Emits a c ys) (append-nil xs) (Emits-trans a b c xs [] p (Emits-of_Silent b c q))

  -- What an event's result `r`, processed in the state `e`, says about the state it leaves.
  abbrev pub Returned : Engine F → List (Alert F) × Engine F → Type 0
  Returned e r =
      (r.1.alerts ≡ Alerts.add_all e.alerts r.0)
      × (saved_alerts r.1.saved ≡ saved_alerts e.saved ++ (if e.has_store then r.0 else []))
      × (r.1.cfg ≡ e.cfg)
      × (r.1.access ≡ e.access)

  Returned-if :
      (b : Bool) (e f : Engine F) (m : M F (List (Alert F)))
      → (f.alerts ≡ e.alerts)
        × (f.saved ≡ e.saved)
        × (f.has_store ≡ e.has_store)
        × (f.cfg ≡ e.cfg)
        × (f.access ≡ e.access)
      → Emits f (m f).1 (m f).0
      → Returned e ((if b then return [] else m) f)
  unfolding Alerts.add_all
  Returned-if true e f m (p, q, h, c, x) es =
      (p, ground (arith, q, append-nil (saved_alerts e.saved)), c, x)
  Returned-if false e f m (p, q, h, c, x) es = (
    es.alerts ∙ ap (λ s. Alerts.add_all s (m f).0) p,
    ground (arith, es.saved, q, h),
    es.cfg ∙ c,
    es.access ∙ x,
  )

  emit-Emits : (o : Option (Alert F)) (e : Engine F) → Emits e (emit o e).1 (emit o e).0
  unfolding emit
  emit-Emits none e = Emits-of_Silent e e (Silent-refl e)
  emit-Emits (some a) e = store_alert-Emits a e

  module _ (clock : ℕ → Time) where
    stamp-Silent :
        (r s t u : Text) (ev : NormalizedEvent) (e : Engine F)
        → Silent e (stamp clock r s t u ev e).1
    unfolding stamp
    stamp-Silent r s t u ev e = now_utc-Silent clock e

    evaluate-Silent :
        (cfg : Config F) (r : Text) (wm : WindowMetrics F) (e : Engine F)
        → Silent e (evaluate clock cfg r wm e).1
    unfolding evaluate raise_window
    evaluate-Silent cfg r wm e = Silent-if (eqb_ℤ wm.attempts (pos 0)) _ _ e e (Silent-refl e) (
        Silent-if (is_nil (rules_of cfg.detection wm)) _ _ e e (Silent-refl e) (
          Silent-trans e _ _
            (cooldown_allow-Silent clock r wm.window_sec cfg.detection.alert_cooldown e)
            (Silent-if _ (raise_window clock cfg r wm) (return none) _ _ (now_utc-Silent clock _)
              (Silent-refl _))))

    raise_access-Silent :
        (cfg : Config F) (ev : NormalizedEvent) (s t u : Text) (e : Engine F)
        → Silent e (raise_access clock cfg ev s t u e).1
    unfolding raise_access
    raise_access-Silent cfg ev s t u e =
        Silent-trans e _ _
          (cooldown_allow-Silent clock ev.reader_id (pos 0) cfg.detection.alert_cooldown e)
          (Silent-if _ (stamp clock ev.reader_id s t u ev) (return none) _ _
            (stamp-Silent ev.reader_id s t u ev _) (Silent-refl _))

    check_access-Silent :
        (cfg : Config F) (ac : AccessControlSet) (ev : NormalizedEvent) (u : Text) (e : Engine F)
        → Silent e (check_access clock cfg ac ev u e).1
    unfolding check_access
    check_access-Silent cfg ac ev u e =
        Silent-if (is_blacklisted (some ac) ev.reader_id u) _ _ e e
          (raise_access-Silent cfg ev _ _ u e)
          (Silent-if _ (raise_access clock cfg ev _ _ u) (return none) e e
            (raise_access-Silent cfg ev _ _ u e) (Silent-refl e))

    evaluate_access-Silent :
        (cfg : Config F) (ev : NormalizedEvent) (e : Engine F)
        → Silent e (evaluate_access clock cfg ev e).1
    unfolding evaluate_access
    evaluate_access-Silent cfg ev e = Silent-either (not e.access.enabled) e _ _ (Silent-refl e) (
        Silent-either (is_empty ev.uid) e _ _ (Silent-refl e) (
          Silent-either (is_empty (normalize_uid ev.uid)) e _ _ (Silent-refl e)
            (check_access-Silent cfg e.access ev (normalize_uid ev.uid) e)))

    raise_auth-Silent :
        (cfg : Config F) (r : Text) (ev : NormalizedEvent) (u : Text) (e : Engine F)
        → Silent e (raise_auth clock cfg r ev u e).1
    unfolding raise_auth
    raise_auth-Silent cfg r ev u e =
        Silent-trans e _ _
          (cooldown_allow_key-Silent clock (auth_key r u) cfg.detection.alert_cooldown e)
          (Silent-if _ (stamp clock r (codes "medium") repeated_auth_failure u ev) (return none) _ _
            (stamp-Silent r (codes "medium") repeated_auth_failure u ev _) (Silent-refl _))

    evaluate_auth_streak-Silent :
        (cfg : Config F) (r : ReaderState) (ev : NormalizedEvent) (e : Engine F)
        → Silent e (evaluate_auth_streak clock cfg r ev e).1
    unfolding evaluate_auth_streak
    evaluate_auth_streak-Silent cfg r ev e = Silent-if (is_empty ev.uid) _ _ e e (Silent-refl e) (
        Silent-if (is_empty (normalize_uid ev.uid)) _ _ e e (Silent-refl e) (
          Silent-if (not (is_failure ev.result) || is_empty ev.error_code) _ _ e e (Silent-refl e) (
            Silent-if (ltb_ℤ (streak_after ev r) (pos 2))
              (return (none, set_streak (normalize_uid ev.uid) (streak_after ev r) r))
              (raise_auth clock cfg r.id ev (normalize_uid ev.uid) >>= (λ alert.
                return (alert, set_streak (normalize_uid ev.uid) (streak_after ev r) r)))
              e e (Silent-refl e) (raise_auth-Silent cfg r.id ev (normalize_uid ev.uid) e))))

    observe_window-Emits :
        (cfg : Config F) (ev : NormalizedEvent) (w : WindowState) (e : Engine F)
        → Emits e (observe_window clock cfg ev w e).1 (observe_window clock cfg ev w e).0.1
    unfolding observe_window
    observe_window-Emits cfg ev w e =
        Silent-Emits e _ _ _ (evaluate-Silent cfg ev.reader_id (Window.metrics ⦃d = d⦄ w) e)
          (emit-Emits _ _)

    observe_windows-Emits :
        (cfg : Config F) (ev : NormalizedEvent) (ks : List ℤ) (ws : Map ℤ WindowState)
        (e : Engine F)
        → Emits e
            (observe_windows clock cfg ev ks ws e).1
            (observe_windows clock cfg ev ks ws e).0.2
    unfolding observe_windows
    observe_windows-Emits cfg ev [] ws e = Emits-of_Silent e e (Silent-refl e)
    observe_windows-Emits cfg ev (k ∷ ks) ws e = elim (Option-cases (lookup k ws)) [
      | inl p ↦ rw (observe_windows, p) (observe_windows-Emits cfg ev ks ws e)
      | inr (w, p) ↦
          rw (observe_windows, p)
            (Emits-trans e _ _ _ _ (observe_window-Emits cfg ev (observe w (entry_of ev)) e)
              (observe_windows-Emits cfg ev ks (insert k (observe w (entry_of ev)) ws) _))
    ]

    pub process_fresh-Emits :
        (cfg : Config F) (ev : NormalizedEvent) (e : Engine F)
        → Emits e (process_fresh clock cfg ev e).1 (process_fresh clock cfg ev e).0
    unfolding process_fresh
    process_fresh-Emits cfg ev e =
        let a = evaluate_access clock cfg ev e in
        let b = emit a.0 a.1 in
        let c = get_reader ev.reader_id cfg b.1 in
        let f = evaluate_auth_streak clock cfg c.0 ev c.1 in
        let g = emit f.0.0 f.1 in
        Silent-Emits e a.1 _ _ (evaluate_access-Silent cfg ev e) (
          Emits-trans a.1 b.1 _ _ _ (emit-Emits a.0 a.1) (
            Silent-Emits b.1 c.1 _ _ (get_reader-Silent ev.reader_id cfg b.1) (
              Silent-Emits c.1 f.1 _ _ (evaluate_auth_streak-Silent cfg c.0 ev c.1) (
                Emits-trans f.1 g.1 _ _ _ (emit-Emits f.0.0 f.1) (
                  Emits-Silent g.1 _ _ _ (observe_windows-Emits cfg ev _ _ g.1) (
                    Silent-trans _ _ _ (put_reader-Silent _ _)
                      (store_metrics-Silent clock ev.reader_id _ _)))))))

    pub is_duplicate-Keeps :
        (p : Platform) (ev : NormalizedEvent) (w : Duration) (e : Engine F)
        → let f = (is_duplicate clock p ev w e).1 in
          (f.alerts ≡ e.alerts)
          × (f.saved ≡ e.saved)
          × (f.has_store ≡ e.has_store)
          × (f.cfg ≡ e.cfg)
          × (f.access ≡ e.access)
    unfolding is_duplicate
    is_duplicate-Keeps p ev w e = ground arith

    -- The alerts that `ProcessEvent` returns are the ones it has added to the store of alerts, in
    -- that order and each once, and the ones it has handed to the storage interface if there is
    -- one. The configuration and the access control are as before.
    pub process_event-Returned :
        (p : Platform) (ev : NormalizedEvent) (e : Engine F)
        → Returned e (process_event clock p ev e)
    unfolding process_event now_utc
    process_event-Returned p ev e =
        let e' : Engine F = record e { readings = suc e.readings } in
        let cfg = e.cfg in
        let ev' : NormalizedEvent = record ev {
          timestamp =
              clamp_timestamp ev.timestamp (clock e.readings) cfg.detection.max_clock_skew
                cfg.detection.max_future_skew;
        } in
        let d2 = is_duplicate clock p ev' cfg.detection.dedupe_window e' in
        let k = is_duplicate-Keeps p ev' cfg.detection.dedupe_window e' in
        Returned-if d2.0 e d2.1 (process_fresh clock cfg ev') k (process_fresh-Emits cfg ev' d2.1)
