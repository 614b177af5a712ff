-- ===== src/Engine.antt =====
-- internal/engine/engine.go: the state of the engine. Each call of `time.Now` takes the next reading
-- of `clock`; `saved` is what the storage interface has been handed, if there is one. Events are
-- processed one at a time, as `Start` does.
pub mod Rules
pub mod Clamp
pub mod Monad
pub mod Evaluate
pub mod Process
pub mod Emitted
pub mod Returned
pub mod Streak
pub mod Replay
pub mod Windows
pub mod Admission
pub mod Evaluated
pub mod Accessed
use rfguard.Common.Tests.{
  ℕ, zero, suc, ◌≡◌, Bool, true, false, not, ◌&&◌, ◌||◌, List, [], ◌∷◌, ◌++◌, Option, none, some,
  if◌then◌else◌,
}
use rfguard.Common.Text.{Text, text_eq, is_empty}
use rfguard.Common.Int.{ℤ, pos}
use rfguard.Common.Maps.{Map}
use rfguard.Common.Clock.{Time}
use rfguard.Model.{Alert, WindowMetrics}
use rfguard.Config.{Config}
use rfguard.Window.{WindowState}
use rfguard.Access.{AccessControlSet, build_access_control}
use rfguard.Cooldown.{Cooldown, new_cooldown}
use rfguard.Dedupe.{DedupeCache, new_dedupe_cache}
use rfguard.Metrics
use rfguard.Alerts

-- What the engine takes from the standard library as it is: `hex(sha256(s))`, and the text of an
-- instant in the layout `RFC3339Nano`.
pub record Platform : Type 0 where
  pub hash : Text → Text
  pub rfc3339_nano : Time → Text

pub record ReaderState : Type 0 where
  pub id : Text
  pub windows : Map ℤ WindowState
  pub uid_failure_streak : Map Text ℤ

-- The calls of the storage interface.
pub data Saved (F : Type 0) : Type 0 where
  save_alert : Alert F → Saved F
  save_metrics : Text → List (WindowMetrics F) → Saved F

pub record Engine (F : Type 0) : Type 0 where
  pub metrics : Metrics.Store F
  pub alerts : Alerts.Store F
  pub has_store : Bool
  pub saved : List (Saved F)
  pub cfg : Config F
  pub access : AccessControlSet
  pub readers : Map Text ReaderState
  pub started : Time
  pub cooldown : Cooldown
  pub de_dupe : DedupeCache
  -- How many readings of the clock have been taken.
  pub readings : ℕ

module _ {F : Type 0} where
  unfoldable pub new_engine :
      Config F → Metrics.Store F → Alerts.Store F → Bool → (ℕ → Time) → Engine F
  new_engine cfg metrics alerts has_store clock = record {
    metrics = metrics;
    alerts = alerts;
    has_store = has_store;
    saved = [];
    cfg = cfg;
    access = build_access_control cfg.access_control;
    readers = [];
    started = clock 0;
    cooldown = new_cooldown;
    de_dupe = new_dedupe_cache;
    readings = 1;
  }

  unfoldable pub update_config : Config F → Engine F → Engine F
  update_config cfg e = record e { cfg = cfg; access = build_access_control cfg.access_control }

  unfoldable pub reset : Engine F → Engine F
  reset e = record e { readers = []; cooldown = new_cooldown; de_dupe = new_dedupe_cache }
