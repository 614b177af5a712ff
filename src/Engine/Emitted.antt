-- ===== src/Engine/Emitted.antt =====
-- The alerts that an event raises are those that are returned, buffered and handed to the storage.
use mathlib.Core.List.{append_assoc, append-nil}
use rfguard.Common.Tests.{ℕ, ◌≡◌, refl, ap, sym, ◌∙◌, List, [], ◌∷◌, ◌++◌, if◌then◌else◌, arith}
use rfguard.Common.Text.{Text, text_eq}
use rfguard.Common.Int.{ℤ}
use rfguard.Common.Clock.{Time, Duration}
use rfguard.Common.Float.{Float}
use rfguard.Model.{WindowMetrics, Alert}
use rfguard.Config.{Config}
use rfguard.Alerts
use rfguard.Engine.{Engine, ReaderState, Saved, save_alert, save_metrics}
use rfguard.Engine.Monad.{now_utc, cooldown_allow, cooldown_allow_key, store_alert, store_metrics}
use rfguard.Engine.Process.{get_reader, put_reader}

module _ {F : Type 0} where
  -- The alerts among the calls of the storage interface.
  unfoldable pub saved_alerts : List (Saved F) → List (Alert F)
  saved_alerts [] = []
  saved_alerts (save_alert a ∷ calls) = a ∷ saved_alerts calls
  saved_alerts (save_metrics r ms ∷ calls) = saved_alerts calls

  saved_alerts-append :
      (xs ys : List (Saved F)) → saved_alerts (xs ++ ys) ≡ saved_alerts xs ++ saved_alerts ys
  unfolding saved_alerts
  saved_alerts-append [] ys = refl
  saved_alerts-append (save_alert a ∷ xs) ys = ap (◌∷◌ a) (saved_alerts-append xs ys)
  saved_alerts-append (save_metrics r ms ∷ xs) ys = saved_alerts-append xs ys

  pub add_all-append :
      (s : Alerts.Store F) (xs ys : List (Alert F))
      → Alerts.add_all s (xs ++ ys) ≡ Alerts.add_all (Alerts.add_all s xs) ys
  unfolding Alerts.add_all
  add_all-append s [] ys = refl
  add_all-append s (x ∷ xs) ys = add_all-append (Alerts.add s x) xs ys

  -- What a step that raises the alerts `out` does with them, and what it leaves alone.
  pub record Emits (e f : Engine F) (out : List (Alert F)) : Type 0 where
    pub alerts : f.alerts ≡ Alerts.add_all e.alerts out
    pub saved : saved_alerts f.saved ≡ saved_alerts e.saved ++ (if e.has_store then out else [])
    pub has_store : f.has_store ≡ e.has_store
    pub cfg : f.cfg ≡ e.cfg
    pub access : f.access ≡ e.access
    pub de_dupe : f.de_dupe ≡ e.de_dupe

  pub Emits-trans :
      (a b c : Engine F) (xs ys : List (Alert F))
      → Emits a b xs
      → Emits b c ys
      → Emits a c (xs ++ ys)
  Emits-trans a b c xs ys p q = record {
    alerts =
        q.alerts ∙ ap (λ s. Alerts.add_all s ys) p.alerts ∙ sym (add_all-append a.alerts xs ys);
    saved = ground (
      arith,
      p.saved,
      q.saved,
      p.has_store,
      append_assoc (saved_alerts a.saved) xs ys,
      append-nil (saved_alerts a.saved),
    );
    has_store = q.has_store ∙ p.has_store;
    cfg = q.cfg ∙ p.cfg;
    access = q.access ∙ p.access;
    de_dupe = q.de_dupe ∙ p.de_dupe;
  }

  -- A step that raises no alert.
  pub record Silent (e f : Engine F) : Type 0 where
    pub alerts : f.alerts ≡ e.alerts
    pub saved : saved_alerts f.saved ≡ saved_alerts e.saved
    pub has_store : f.has_store ≡ e.has_store
    pub cfg : f.cfg ≡ e.cfg
    pub access : f.access ≡ e.access
    pub de_dupe : f.de_dupe ≡ e.de_dupe

  pub Emits-of_Silent : (e f : Engine F) → Silent e f → Emits e f []
  Emits-of_Silent e f s = record {
    alerts = unfold Alerts.add_all in s.alerts;
    saved = ground (arith, s.saved, append-nil (saved_alerts e.saved));
    has_store = s.has_store;
    cfg = s.cfg;
    access = s.access;
    de_dupe = s.de_dupe;
  }

  pub Silent-refl : (e : Engine F) → Silent e e
  Silent-refl e = record {
    alerts = refl;
    saved = refl;
    has_store = refl;
    cfg = refl;
    access = refl;
    de_dupe = refl;
  }

  module _ (clock : ℕ → Time) where
    pub now_utc-Silent : (e : Engine F) → Silent e (now_utc clock e).1
    unfolding now_utc
    now_utc-Silent e = ground arith

    pub cooldown_allow-Silent :
        (r : Text) (w : ℤ) (c : Duration) (e : Engine F) → Silent e (cooldown_allow clock r w c e).1
    unfolding cooldown_allow
    cooldown_allow-Silent r w c e = ground arith

    pub cooldown_allow_key-Silent :
        (k : Text) (c : Duration) (e : Engine F) → Silent e (cooldown_allow_key clock k c e).1
    unfolding cooldown_allow_key
    cooldown_allow_key-Silent k c e = ground arith

    pub store_metrics-Silent :
        (r : Text) (ms : List (WindowMetrics F)) (e : Engine F)
        → Silent e (store_metrics clock r ms e).1
    unfolding store_metrics saved_alerts
    store_metrics-Silent r [] e = ground arith
    store_metrics-Silent r (m ∷ ms) e = ground (
      arith,
      saved_alerts-append e.saved (save_metrics r (m ∷ ms) ∷ []),
      append-nil (saved_alerts e.saved),
    )

  pub store_alert-Emits : (a : Alert F) (e : Engine F) → Emits e (store_alert a e).1 (a ∷ [])
  unfolding store_alert saved_alerts Alerts.add_all
  store_alert-Emits a e =
      ground
        (arith, saved_alerts-append e.saved (save_alert a ∷ []), append-nil (saved_alerts e.saved))

  pub get_reader-Silent :
      ⦃d : Float F⦄ (r : Text) (cfg : Config F) (e : Engine F)
      → Silent e (get_reader ⦃d = d⦄ r cfg e).1
  unfolding get_reader
  get_reader-Silent r cfg e = record {
    alerts = refl;
    saved = refl;
    has_store = refl;
    cfg = refl;
    access = refl;
    de_dupe = refl;
  }

  pub put_reader-Silent :
      ⦃d : Float F⦄ (r : ReaderState) (e : Engine F) → Silent e (put_reader ⦃d = d⦄ r e).1
  unfolding put_reader
  put_reader-Silent r e = record {
    alerts = refl;
    saved = refl;
    has_store = refl;
    cfg = refl;
    access = refl;
    de_dupe = refl;
  }
