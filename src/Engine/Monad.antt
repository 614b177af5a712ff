-- ===== src/Engine/Monad.antt =====
-- The engine's state as a monad, and the actions that its handlers share.
use rfguard.Common.Tests.{ℕ, suc, Bool, true, List, [], ◌∷◌, ◌++◌, if◌then◌else◌}
use rfguard.Common.Text.{Text, is_empty}
use rfguard.Common.Int.{ℤ, pos, leb_ℤ}
use rfguard.Common.Clock.{Time, Duration}
use rfguard.Model.{Alert, WindowMetrics}
use rfguard.Engine.{Engine, Saved, save_alert, save_metrics}
use rfguard.Cooldown.{allow, allow_key}
use rfguard.Metrics
use rfguard.Alerts

abbrev pub M : Type 0 → Type 0 → Type 0
M F A = Engine F → A × Engine F

infixl 5 ◌>>=◌ ◌>>◌
abbrev pub ◌>>=◌ : {F A B : Type 0} → M F A → (A → M F B) → M F B
◌>>=◌ m f e = let r = m e in f r.0 r.1

abbrev pub ◌>>◌ : {F A B : Type 0} → M F A → M F B → M F B
◌>>◌ m k e = let r = m e in k r.1

abbrev pub return : {F A : Type 0} → A → M F A
return a e = (a, e)

module _ {F : Type 0} where
  -- The next state after a test against the storage interface, which may be nil.
  abbrev save : Saved F → Engine F → Engine F
  save call e = if e.has_store then record e { saved = e.saved ++ call ∷ [] } else e

  unfoldable pub store_alert : Alert F → M F (Unit {0})
  store_alert alert e =
      (tt, save (save_alert alert) (record e { alerts = Alerts.add e.alerts alert }))

module _ {F : Type 0} (clock : ℕ → Time) where
  -- `time.Now().UTC()`.
  unfoldable pub now_utc : M F Time
  now_utc e = (clock e.readings, record e { readings = suc e.readings })

  unfoldable pub cooldown_allow_key : Text → Duration → M F Bool
  cooldown_allow_key key cooldown e =
      if leb_ℤ cooldown (pos 0)
      then (true, e)
      else let r = allow_key e.cooldown key cooldown (clock e.readings) in
        (r.1, record e { cooldown = r.0; readings = suc e.readings })

  unfoldable pub cooldown_allow : Text → ℤ → Duration → M F Bool
  cooldown_allow reader_id window_sec cooldown e =
      if leb_ℤ cooldown (pos 0)
      then (true, e)
      else let r = allow e.cooldown reader_id window_sec cooldown (clock e.readings) in
        (r.1, record e { cooldown = r.0; readings = suc e.readings })

  -- `e.metrics.Update` and `SaveMetrics`, which are called for at least one window.
  unfoldable pub store_metrics : Text → List (WindowMetrics F) → M F (Unit {0})
  store_metrics reader_id [] e = (tt, e)
  store_metrics reader_id (wm ∷ list) e =
      let updated = if is_empty reader_id then e else record e {
        metrics = Metrics.update e.metrics reader_id (wm ∷ list) (clock e.readings);
        readings = suc e.readings;
      } in
      (tt, save (save_metrics reader_id (wm ∷ list)) updated)
