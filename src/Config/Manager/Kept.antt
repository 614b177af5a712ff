-- ===== src/Config/Manager/Kept.antt =====
-- The configuration in force is usable and complete, whatever becomes of the file.
use rfguard.Common.Tests.{◌≡◌, Bool, true, false, Option, none, some, Option-cases, inl, inr}
use rfguard.Common.Result.{Outcome, ok, err, Ensures, bind-Ensures, bind_any-Ensures, Ensures_of_ok}
use rfguard.Common.Text.{Text}
use rfguard.Common.Float.{Float, IsOrdered}
use rfguard.Config.{AccessControlConfig, Config, apply_defaults, validate}
use rfguard.Config.Checks.{IsUsable, IsComplete, apply_defaults-IsComplete, validate-none_iff}
use rfguard.Config.Load.{
  Codec, LoadError, SaveError, or_fail, unreadable, checked, load, saved_text,
}
use rfguard.Config.Manager.{
  Disk, Manager, Write, watch_tick, tick_with, needs_reload, content_of, new_manager, reload,
  reload_with, update, update_with, save_with,
}

module _ {F : Type 0} ⦃d : Float F⦄ where
  pub record IsSound (cfg : Config F) : Type 0 where
    pub usable : IsUsable cfg
    pub complete : IsComplete cfg

  -- A configuration with another access control.
  abbrev pub with_access : AccessControlConfig → Config F → Config F
  with_access ac cfg = record cfg { access_control = ac }

  with_access-IsSound :
      (ac : AccessControlConfig) (cfg : Config F) → IsSound cfg → IsSound (with_access ac cfg)
  with_access-IsSound ac cfg s = record {
    usable = record {
      api = s.usable.api;
      rest = s.usable.rest;
      syslog = s.usable.syslog;
      tcp_stream = s.usable.tcp_stream;
      file_tail = s.usable.file_tail;
      kafka = s.usable.kafka;
      aps = s.usable.aps;
      score = s.usable.score;
      windows = s.usable.windows;
    };
    complete = record {
      windows = s.complete.windows;
      epsilon = s.complete.epsilon;
      metrics = s.complete.metrics;
      alerts = s.complete.alerts;
      channel = s.complete.channel;
      timezone = s.complete.timezone;
      reader = s.complete.reader;
    };
  }

  module _ (codec : Codec F) (laws : IsOrdered F) where
    checked-Ensures : (cfg : Config F) → Ensures IsSound (checked codec cfg)
    unfolding checked
    checked-Ensures cfg = elim (Option-cases (validate (apply_defaults cfg))) [
      | inl p ↦
          rw (checked, p)
            (record {
              usable = (validate-none_iff (apply_defaults cfg)).0 p;
              complete = apply_defaults-IsComplete laws cfg;
            })
      | inr (e, p) ↦ rw (checked, p) tt
    ]

    load-Ensures : (content : Option Text) → Ensures IsSound (load codec content)
    unfolding load
    load-Ensures content =
        bind_any-Ensures IsSound (or_fail unreadable content) _
          (λ text. bind_any-Ensures IsSound _ (checked codec) checked-Ensures)

    new_manager-Ensures :
        (path : Text) (disk : Disk) → Ensures (λ m. IsSound m.cfg) (new_manager codec path disk)
    unfolding new_manager
    new_manager-Ensures path disk =
        bind-Ensures IsSound (λ m. IsSound m.cfg) (load codec (content_of disk)) _
          (load-Ensures (content_of disk)) (λ cfg s. s)

    reload_with-IsSound :
        (m : Manager F) (disk : Disk) (r : Outcome LoadError (Config F))
        → Ensures IsSound r
        → IsSound m.cfg
        → IsSound (reload_with codec m disk r).1.cfg
    reload_with-IsSound m disk (ok cfg) r s = r
    reload_with-IsSound m disk (err e) r s = s

    reload-IsSound :
        (m : Manager F) (disk : Disk) → IsSound m.cfg → IsSound (reload codec m disk).1.cfg
    unfolding reload
    reload-IsSound m disk s =
        reload_with-IsSound m disk (load codec (content_of disk)) (load-Ensures (content_of disk)) s

    update_with-IsSound :
        (m : Manager F) (cfg : Config F) (w : Bool × Disk)
        → IsSound m.cfg
        → IsSound cfg
        → IsSound (update_with codec m cfg w).1.cfg
    update_with-IsSound m cfg (true, disk) s t = t
    update_with-IsSound m cfg (false, disk) s t = s

    save_with-IsSound :
        (write : Write) (m : Manager F) (cfg : Config F) (disk : Disk)
        (text : Outcome SaveError Text)
        → IsSound m.cfg
        → IsSound cfg
        → IsSound (save_with codec write m cfg disk text).1.cfg
    save_with-IsSound write m cfg disk (ok text) s t =
        update_with-IsSound m cfg (write text disk) s t
    save_with-IsSound write m cfg disk (err e) s t = s

    update-IsSound :
        (write : Write) (m : Manager F) (cfg : Config F) (disk : Disk)
        → IsSound m.cfg
        → IsSound cfg
        → IsSound (update codec write m (some cfg) disk).1.cfg
    unfolding update
    update-IsSound write m cfg disk s t =
        save_with-IsSound write m cfg disk (saved_text codec m.path (some cfg)) s t

    watch_tick-IsSound :
        (m : Manager F) (disk : Disk) → IsSound m.cfg → IsSound (watch_tick codec m disk).0.cfg
    unfolding watch_tick
    watch_tick-IsSound m disk s =
        elim (needs_reload m disk) as (λ n. IsSound (tick_with codec m disk n).0.cfg) [
          | none ↦ s
          | some true ↦ reload-IsSound m disk s
          | some false ↦ s
        ]

    -- What the program does with a manager: it starts it, watches the file, and posts an access
    -- control. In between, anyone may write the file.
    pub data Reached : Manager F → Type 0 where
      started :
          (path : Text) (disk : Disk) (m : Manager F)
          → new_manager codec path disk ≡ ok m
          → Reached m
      ticked : (m : Manager F) (disk : Disk) → Reached m → Reached (watch_tick codec m disk).0
      posted :
          (write : Write) (ac : AccessControlConfig) (m : Manager F) (disk : Disk)
          → Reached m
          → Reached (update codec write m (some (with_access ac m.cfg)) disk).1

    -- Whatever becomes of the file, and whatever access control is posted: if `float64` meets the laws of
    -- `IsOrdered`, then the configuration of a manager that started is always usable and complete.
    pub Reached-IsSound : (m : Manager F) → Reached m → IsSound m.cfg
    Reached-IsSound _ (started path disk m e) =
        Ensures_of_ok (λ m. IsSound m.cfg) (new_manager codec path disk) m
          (new_manager-Ensures path disk) e
    Reached-IsSound _ (ticked m disk r) = watch_tick-IsSound m disk (Reached-IsSound m r)
    Reached-IsSound _ (posted write ac m disk r) =
        let s = Reached-IsSound m r in
        update-IsSound write m (with_access ac m.cfg) disk s (with_access-IsSound ac m.cfg s)
