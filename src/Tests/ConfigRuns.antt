-- ===== src/Tests/ConfigRuns.antt =====
-- The configuration's file on small inputs: a codec that writes the default configuration as an empty
-- object, and reads every object as one that leaves the defaults alone.
use rfguard.Common.Tests.{◌≡◌, refl, true, [], ◌∷◌, none, some, arith}
use rfguard.Common.Text.{Text, codes, trim_space, to_lower}
use rfguard.Common.Int.{ℤ, pos}
use rfguard.Common.Fixed.{fixed_float, scaled, ratio, Fixed-IsOrdered}
use rfguard.Common.Result.{ok}
use rfguard.Config.{Config, default_config, apply_defaults, validate, check_windows}
use rfguard.Config.Checks.{IsUsable, IsComplete, validate-none_iff, apply_defaults-IsComplete}
use rfguard.Config.Load.{Codec, looks_like_json, ext_from, load, checked, saved_text}
use rfguard.Config.Manager.{
  File, Manager, Write, new_manager, update, reload, get, watch, watch_tick, quiet,
}
use rfguard.Config.Manager.Kept.{IsSound, Reached, started, posted, ticked, Reached-IsSound}
use rfguard.Config.Manager.Follows.{IsFaithful, update-reload, watch_recovers}

abbrev codec : Codec ℤ
codec = record {
  from_json = λ text cfg. some cfg;
  from_yaml = λ text cfg. none;
  to_json = λ cfg. some (codes "{}");
  to_yaml = λ cfg. none;
}

abbrev cfg : Config ℤ
cfg = default_config ⦃d = fixed_float⦄

abbrev file : File
file = record { content = codes "{}\n"; mod_time = pos 9 }

abbrev manager : Manager ℤ
manager = record { path = codes "/etc/rfguard.json"; cfg = cfg; mod_time = pos 5 }

abbrev write : Write
write text disk = (true, some (record { content = text; mod_time = pos 7 }))

cfg-IsUsable : IsUsable ⦃d = fixed_float⦄ cfg
unfolding validate default_config fixed_float scaled ratio check_windows
cfg-IsUsable = (validate-none_iff ⦃d = fixed_float⦄ cfg).0 refl

cfg-IsComplete : IsComplete ⦃d = fixed_float⦄ cfg
unfolding apply_defaults default_config fixed_float scaled ratio
cfg-IsComplete = apply_defaults-IsComplete ⦃d = fixed_float⦄ Fixed-IsOrdered cfg

object_text : (text : Text) → some (codes "{}") ≡ some text → codes "{}" ≡ text
object_text text e = ground (arith, e)

cfg-IsFaithful : IsFaithful ⦃d = fixed_float⦄ codec cfg
unfolding looks_like_json default_config trim_space
cfg-IsFaithful = record {
  json = λ text e. rw (← object_text text e) (refl, refl);
  yaml = λ text e. ground (arith, e);
}

abbrev started_manager : Manager ℤ
started_manager = record { path = codes "/etc/rfguard.json"; cfg = cfg; mod_time = pos 9 }

-- A manager that started, got an access control posted, and then lost its file.
abbrev posted_manager : Manager ℤ
posted_manager = (update codec write started_manager (some cfg) (some file)).1

load_file : load codec (some file.content) ≡ ok cfg
unfolding load checked trim_space looks_like_json validate apply_defaults default_config fixed_float
load_file = refl

started_at : new_manager codec (codes "/etc/rfguard.json") (some file) ≡ ok started_manager
unfolding new_manager
started_at = rw load_file refl

abbrev history :
    Reached ⦃d = fixed_float⦄ codec Fixed-IsOrdered (watch_tick codec posted_manager none).0
history = ticked posted_manager none (
    posted write cfg.access_control started_manager (some file)
      (started (codes "/etc/rfguard.json") (some file) started_manager started_at))

Reached-IsSound_example : IsSound ⦃d = fixed_float⦄ (watch_tick codec posted_manager none).0.cfg
Reached-IsSound_example = Reached-IsSound ⦃d = fixed_float⦄ codec Fixed-IsOrdered _ history

update-reload_example :
    let done = update ⦃d = fixed_float⦄ codec write manager (some cfg) (some file) in
    (done.0 ≡ ok true)
    × (get done.1 ≡ cfg)
    × (reload ⦃d = fixed_float⦄ codec done.1 done.2 ≡ (ok cfg, done.1))
unfolding saved_text to_lower ext_from
update-reload_example =
    update-reload codec write manager cfg (some file) (codes "{}") (pos 7) cfg-IsFaithful
      cfg-IsUsable cfg-IsComplete refl refl

watch_recovers_example :
    let now = (watch ⦃d = fixed_float⦄ codec manager (none ∷ some file ∷ [])).0 in
    (get now ≡ cfg) × (watch_tick ⦃d = fixed_float⦄ codec now (some file) ≡ (now, quiet))
unfolding load
watch_recovers_example = watch_recovers codec manager (none ∷ []) file cfg (tt, tt) load_file refl
