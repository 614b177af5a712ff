-- ===== src/Config/Manager.antt =====
-- internal/config/config.go: `Manager`, the configuration that is in force, and the file that it
-- follows. `Load` and the `Stat` behind it are taken to see the same file.
pub mod Kept
pub mod Follows
pub mod Updated
use rfguard.Common.Tests.{
  ℕ, ◌≡◌, refl, Bool, true, false, ◌||◌, ◌&&◌, List, [], ◌∷◌, ◌++◌, Option, none, some, map,
  if◌then◌else◌, eqb,
}
use rfguard.Common.Eq.{◌==◌}
use rfguard.Common.Result.{Outcome, ok, err, ◌>>=◌}
use rfguard.Common.Text.{Text, is_empty}
use rfguard.Common.Int.{ℤ, pos, leb_ℤ, ltb_ℤ}
use rfguard.Common.Clock.{Time, Duration}
use rfguard.Common.Float.{Float}
use rfguard.Config.{Config, seconds_of}
use rfguard.Config.Load.{Codec, LoadError, SaveError, unwritable, load, saved_text}

pub record File : Type 0 where
  pub content : Text
  pub mod_time : Time

-- What the path of the configuration names, if there is such a file.
abbrev pub Disk : Type 0
Disk = Option File

abbrev pub content_of : Disk → Option Text
content_of none = none
content_of (some f) = some f.content

pub record Manager (F : Type 0) : Type 0 where
  pub path : Text
  pub cfg : Config F
  pub mod_time : Time

-- The time that `os.Stat` gives, or the one from before if it fails.
abbrev pub stamp_or : Time → Disk → Time
stamp_or t none = t
stamp_or t (some f) = f.mod_time

-- What a round of `Watch` calls.
pub data WatchEvent (F : Type 0) : Type 0 where
  quiet no_file : WatchEvent F
  refused : LoadError → WatchEvent F
  reloaded : Config F → WatchEvent F

-- `os.WriteFile`: whether it succeeded, and what it left, which may be a part of the text.
abbrev pub Write : Type 0
Write = Text → Disk → Bool × Disk

module _ {F : Type 0} where
  abbrev pub get : Manager F → Config F
  get m = m.cfg

  unfoldable pub needs_reload : Manager F → Disk → Option Bool
  needs_reload m none = none
  needs_reload m (some f) = some (ltb_ℤ m.mod_time f.mod_time)

  -- `m.cfg.Store`, and the new time.
  abbrev pub install : Config F → Disk → Manager F → Manager F
  install cfg disk m = record m { cfg = cfg; mod_time = stamp_or m.mod_time disk }

module _ {F : Type 0} ⦃d : Float F⦄ (codec : Codec F) where
  unfoldable pub new_manager : Text → Disk → Outcome LoadError (Manager F)
  new_manager path disk = do
    cfg ← load codec (content_of disk)
    ok (record { path = path; cfg = cfg; mod_time = stamp_or (pos 0) disk })

  abbrev pub reload_with :
      Manager F → Disk → Outcome LoadError (Config F) → Outcome LoadError (Config F) × Manager F
  reload_with m disk (err e) = (err e, m)
  reload_with m disk (ok cfg) = (ok cfg, install cfg disk m)

  unfoldable pub reload : Manager F → Disk → Outcome LoadError (Config F) × Manager F
  reload m disk = reload_with m disk (load codec (content_of disk))

  abbrev pub update_with :
      Manager F → Config F → Bool × Disk → Outcome SaveError Bool × Manager F × Disk
  update_with m cfg (false, disk) = (err unwritable, m, disk)
  update_with m cfg (true, disk) = (ok true, install cfg disk m, disk)

  abbrev pub save_with :
      Write
      → Manager F
      → Config F
      → Disk
      → Outcome SaveError Text
      → Outcome SaveError Bool × Manager F × Disk
  save_with write m cfg disk (err e) = (err e, m, disk)
  save_with write m cfg disk (ok text) = update_with m cfg (write text disk)

  -- `Update`, which `nil` makes fail before anything is written.
  unfoldable pub update :
      Write → Manager F → Option (Config F) → Disk → Outcome SaveError Bool × Manager F × Disk
  update write m none disk = (err SaveError.no_path_or_config, m, disk)
  update write m (some cfg) disk = save_with write m cfg disk (saved_text codec m.path (some cfg))

  abbrev pub event_of : Outcome LoadError (Config F) → WatchEvent F
  event_of (err e) = refused e
  event_of (ok cfg) = reloaded cfg

  abbrev pub tick_with : Manager F → Disk → Option Bool → Manager F × WatchEvent F
  tick_with m disk none = (m, no_file)
  tick_with m disk (some false) = (m, quiet)
  tick_with m disk (some true) = let r = reload m disk in (r.1, event_of r.0)

  -- One tick of `Watch`.
  unfoldable pub watch_tick : Manager F → Disk → Manager F × WatchEvent F
  unfolding needs_reload
  watch_tick m disk = tick_with m disk (needs_reload m disk)

  -- The loop, over what the ticks find.
  unfoldable pub watch : Manager F → List Disk → Manager F × List (WatchEvent F)
  unfolding watch_tick
  watch m [] = (m, [])
  watch m (disk ∷ disks) =
      let now = watch_tick m disk in let later = watch now.0 disks in (later.0, now.1 ∷ later.1)

unfoldable pub watch_interval : Duration → Duration
watch_interval interval = if leb_ℤ interval (pos 0) then pos 3_000_000_000 else interval

-- `ResolvePath`, with the working directory if it is known, and `filepath.Join`.
unfoldable pub resolve_path : Option Text → (Text → Text → Text) → Text → Text
resolve_path cwd join [] = []
resolve_path none join (c ∷ path) = c ∷ path
resolve_path (some dir) join (c ∷ path) = if eqb c b'/' then c ∷ path else join dir (c ∷ path)
