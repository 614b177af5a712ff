-- ===== src/Engine/Accessed.antt =====
-- The alerts about the access control among those that `ProcessEvent` raises.
use rfguard.Common.Tests.{
  ℕ, suc, ◌≡◌, refl, ap, ◌∙◌, Bool, ◌||◌, List, [], ◌∷◌, ◌++◌, Option, none, some, if◌then◌else◌,
  arith, Option-cases, Bool-cases, inl, inr,
}
use mathlib.Core.List.{append-nil}
use rfguard.Common.Eq.{◌==◌}
use rfguard.Common.Text.{Text, text_eq}
use rfguard.Common.Int.{ℤ, int_eq}
use rfguard.Common.Maps.{Map, lookup, insert}
use rfguard.Common.Clock.{Time}
use rfguard.Common.Float.{Float}
use rfguard.Model.{NormalizedEvent, WindowMetrics, Alert}
use rfguard.Config.{Config}
use rfguard.Window.{WindowState, observe}
use rfguard.Window
use rfguard.Engine.{Engine, Platform, ReaderState}
use rfguard.Engine.Clamp.{clamp_timestamp}
use rfguard.Engine.Monad.{now_utc}
use rfguard.Engine.Evaluate.{
  blacklisted_uid, whitelist_violation, evaluate, evaluate_access, check_access, raise_access,
  stamp, evaluate_auth_streak, raise_auth,
}
use rfguard.Engine.Evaluated.{Evaluated, empty, quiet, held, raised, evaluate_lem}
use rfguard.Engine.Process.{
  emit, get_reader, is_duplicate, observe_window, observe_windows, entry_of, process_fresh,
  process_event, sorted_keys,
}
use rfguard.Engine.Admission.{kind_of}

abbrev pub listed : {A : Type 0} → Option A → List A
listed none = []
listed (some a) = a ∷ []

module _ {F : Type 0} where
  abbrev pub is_access : Alert F → Bool
  is_access a = a.alert_type == blacklisted_uid || a.alert_type == whitelist_violation

  -- The types and severities of the alerts about the access control.
  unfoldable pub access_kinds : List (Alert F) → List (Text × Text)
  access_kinds [] = []
  access_kinds (a ∷ alerts) =
      let rest = access_kinds alerts in
      if is_access a then (a.alert_type, a.severity) ∷ rest else rest

  access_kinds-append :
      (xs ys : List (Alert F)) → access_kinds (xs ++ ys) ≡ access_kinds xs ++ access_kinds ys
  unfolding access_kinds
  access_kinds-append [] ys = refl
  access_kinds-append (a ∷ xs) ys = elim (Bool-cases (is_access a)) [
    | inl on ↦ rw on (ap (◌∷◌ (a.alert_type, a.severity)) (access_kinds-append xs ys))
    | inr off ↦ rw off (access_kinds-append xs ys)
  ]

  emit-listed : ⦃d : Float F⦄ → (o : Option (Alert F)) (e : Engine F) → (emit o e).0 ≡ listed o
  unfolding emit
  emit-listed none e = refl
  emit-listed (some a) e = refl

module _ {F : Type 0} ⦃d : Float F⦄ (clock : ℕ → Time) (cfg : Config F) where
  Evaluated-none :
      (wm : WindowMetrics F) (r : Text) (allowed : Bool) (o : Option (Alert F))
      → Evaluated cfg.detection wm r allowed o
      → access_kinds (listed o) ≡ []
  unfolding access_kinds
  Evaluated-none wm r allowed _ (empty h) = refl
  Evaluated-none wm r allowed _ (quiet h) = refl
  Evaluated-none wm r allowed _ (held h) = refl
  Evaluated-none wm r allowed _ (raised a rule h c g report) = rw report.kind refl

  evaluate_auth_streak-none :
      (reader : ReaderState) (ev : NormalizedEvent) (e : Engine F)
      → access_kinds (listed (evaluate_auth_streak clock cfg reader ev e).0.0) ≡ []
  unfolding evaluate_auth_streak raise_auth stamp access_kinds
  evaluate_auth_streak-none reader ev e = ground arith

  evaluate_access-all :
      (ev : NormalizedEvent) (e : Engine F)
      → let o = (evaluate_access clock cfg ev e).0 in access_kinds (listed o) ≡ listed (kind_of o)
  unfolding evaluate_access check_access raise_access stamp access_kinds
  evaluate_access-all ev e = ground arith

  observe_window-none :
      (ev : NormalizedEvent) (w : WindowState) (e : Engine F)
      → access_kinds (observe_window clock cfg ev w e).0.1 ≡ []
  unfolding observe_window
  observe_window-none ev w e =
      let wm = Window.metrics ⦃d = d⦄ w in
      let found = evaluate clock cfg ev.reader_id wm e in
      ap access_kinds (emit-listed found.0 found.1)
      ∙ Evaluated-none wm ev.reader_id _ found.0 (evaluate_lem clock cfg ev.reader_id wm e)

  observe_windows-none :
      (ev : NormalizedEvent) (ks : List ℤ) (ws : Map ℤ WindowState) (e : Engine F)
      → access_kinds (observe_windows clock cfg ev ks ws e).0.2 ≡ []
  unfolding observe_windows access_kinds
  observe_windows-none ev [] ws e = refl
  observe_windows-none ev (k ∷ ks) ws e = elim (Option-cases (lookup k ws)) [
    | inl p ↦ rw (observe_windows, p) (observe_windows-none ev ks ws e)
    | inr (w, p) ↦
        let w' = observe w (entry_of ev) in
        let round = observe_window clock cfg ev w' e in
        let rest = observe_windows clock cfg ev ks (insert k w' ws) round.1 in
        rw (observe_windows, p)
          (access_kinds-append round.0.1 rest.0.2
            ∙ ap (λ t. t ++ access_kinds rest.0.2) (observe_window-none ev w' e)
            ∙ observe_windows-none ev ks (insert k w' ws) round.1)
  ]

  pub process_fresh-kinds :
      (ev : NormalizedEvent) (e : Engine F)
      → access_kinds (process_fresh clock cfg ev e).0
        ≡ listed (kind_of (evaluate_access clock cfg ev e).0)
  unfolding process_fresh
  process_fresh-kinds ev e =
      let a = evaluate_access clock cfg ev e in
      let b = emit a.0 a.1 in
      let c = get_reader ev.reader_id cfg b.1 in
      let f = evaluate_auth_streak clock cfg c.0 ev c.1 in
      let g = emit f.0.0 f.1 in
      let o = observe_windows clock cfg ev (sorted_keys f.0.1.windows) f.0.1.windows g.1 in
      access_kinds-append b.0 (g.0 ++ o.0.2)
      ∙ ap (λ t. access_kinds b.0 ++ t)
          (access_kinds-append g.0 o.0.2
            ∙ ap (λ t. t ++ access_kinds o.0.2)
                (ap access_kinds (emit-listed f.0.0 f.1) ∙ evaluate_auth_streak-none c.0 ev c.1)
            ∙ observe_windows-none ev (sorted_keys f.0.1.windows) f.0.1.windows g.1)
      ∙ append-nil (access_kinds b.0)
      ∙ ap access_kinds (emit-listed a.0 a.1)
      ∙ evaluate_access-all ev e

module _ {F : Type 0} ⦃d : Float F⦄ (clock : ℕ → Time) (platform : Platform) where
  -- The event with its timestamp clamped, as `ProcessEvent` goes on with it.
  abbrev pub clamped : NormalizedEvent → Engine F → NormalizedEvent
  clamped ev e = record ev {
    timestamp =
        clamp_timestamp ev.timestamp (clock e.readings) e.cfg.detection.max_clock_skew
          e.cfg.detection.max_future_skew;
  }

  -- Whether the event is a duplicate, and the engine after that test.
  abbrev pub tested : NormalizedEvent → Engine F → Bool × Engine F
  tested ev e =
      is_duplicate clock platform (clamped ev e) e.cfg.detection.dedupe_window
        (record e { readings = suc e.readings })

  pub process_event-kinds :
      (ev : NormalizedEvent) (e : Engine F)
      → access_kinds (process_event clock platform ev e).0 ≡ (
          if (tested ev e).0
          then []
          else listed (kind_of (evaluate_access clock e.cfg (clamped ev e) (tested ev e).1).0))
  unfolding process_event now_utc access_kinds
  process_event-kinds ev e = elim (Bool-cases (tested ev e).0) [
    | inl again ↦ rw again refl
    | inr fresh ↦ rw fresh (process_fresh-kinds clock e.cfg (clamped ev e) (tested ev e).1)
  ]
