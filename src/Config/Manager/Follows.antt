-- ===== src/Config/Manager/Follows.antt =====
-- The configuration in force follows the file, and the file follows what is posted.
use rfguard.Common.Tests.{
  ◌≡◌, refl, ap, ◌∙◌, Bool, true, false, List, [], ◌∷◌, ◌++◌, Option, none, some, arith, Bool-cases,
  Option-cases, inl, inr,
}
use rfguard.Common.Eq.{◌==◌}
use rfguard.Common.Lists.{All}
use rfguard.Common.Int.{ltb_ℤ}
use rfguard.Common.Clock.{Time}
use rfguard.Common.Result.{Outcome, ok, err, Ensures}
use rfguard.Common.Text.{Text, text_eq, is_empty, codes, to_lower, trim_space}
use rfguard.Common.Float.{Float}
use rfguard.Config.{Config, default_config, validate}
use rfguard.Config.Checks.{IsUsable, IsComplete, apply_defaults_of_IsComplete, validate-none_iff}
use rfguard.Config.Load.{
  Codec, LoadError, looks_like_json, ext, decode, checked, load, encode, saved_text,
}
use rfguard.Config.Manager.{
  Disk, File, Manager, Write, content_of, get, install, needs_reload, reload, reload_with, update,
  watch_tick, tick_with, watch, quiet, reloaded,
}

ltb_ℤ_irrefl : (t : Time) → ltb_ℤ t t ≡ false
ltb_ℤ_irrefl t = ground arith

looks_like_json-is_empty : (text : Text) → looks_like_json text ≡ true → is_empty text ≡ false
unfolding looks_like_json
looks_like_json-is_empty [] h = ground (arith, h)
looks_like_json-is_empty (c ∷ text) h = refl

module _ {F : Type 0} ⦃d : Float F⦄ where
  checked_sound :
      (codec : Codec F) (cfg : Config F)
      → IsUsable cfg
      → IsComplete cfg
      → checked codec cfg ≡ ok cfg
  unfolding checked
  checked_sound codec cfg u c =
      let same = apply_defaults_of_IsComplete cfg c in
      let valid = ap validate same ∙ (validate-none_iff cfg).1 u in rw (checked, valid) (ap ok same)

  -- What the formats promise of a configuration: JSON text starts with a bracket, YAML text neither
  -- with one nor empty, and either is read back over the defaults as it was written.
  pub record IsFaithful (codec : Codec F) (cfg : Config F) : Type 0 where
    pub json :
        (text : Text)
        → codec.to_json cfg ≡ some text
        → (looks_like_json (trim_space text) ≡ true)
          × (codec.from_json (trim_space text) default_config ≡ some cfg)
    pub yaml :
        (text : Text)
        → codec.to_yaml cfg ≡ some text
        → (looks_like_json (trim_space text) ≡ false)
          × (is_empty (trim_space text) ≡ false)
          × (codec.from_yaml (trim_space text) default_config ≡ some cfg)

  module _ (codec : Codec F) where
    load_decoded :
        (text : Text) (cfg : Config F)
        → is_empty (trim_space text) ≡ false
        → decode codec (trim_space text) ≡ some cfg
        → IsUsable cfg
        → IsComplete cfg
        → load codec (some text) ≡ ok cfg
    unfolding load
    load_decoded text cfg e h u c = rw (e, h) (checked_sound codec cfg u c)

    encode-load :
        (path text : Text) (cfg : Config F)
        → IsFaithful codec cfg
        → IsUsable cfg
        → IsComplete cfg
        → encode codec path cfg ≡ some text
        → load codec (some text) ≡ ok cfg
    unfolding encode decode
    encode-load path text cfg f u c h = elim (Bool-cases (to_lower (ext path) == codes ".json")) [
      | inl json ↦
          let r = f.json text (ground (arith, h, json)) in
          load_decoded text cfg (looks_like_json-is_empty (trim_space text) r.0) (ground (arith, r))
            u c
      | inr yaml ↦
          let r = f.yaml text (ground (arith, h, yaml)) in
          load_decoded text cfg r.1 (ground (arith, r)) u c
    ]

    saved_text-load :
        (path text : Text) (cfg : Config F)
        → IsFaithful codec cfg
        → IsUsable cfg
        → IsComplete cfg
        → saved_text codec path (some cfg) ≡ ok text
        → load codec (some text) ≡ ok cfg
    unfolding saved_text
    saved_text-load path text cfg f u c h = elim (Bool-cases (is_empty path)) [
      | inl no_path ↦ ground (arith, h, no_path)
      | inr named ↦ elim (Option-cases (encode codec path cfg)) [
        | inl failed ↦ ground (arith, h, named, failed)
        | inr (t, e) ↦ encode-load path text cfg f u c (ground (arith, h, named, e))
      ]
    ]

    -- What is posted is in force, and is what the file gives when it is read again: if the file can be
    -- written and the format is faithful to a usable and complete configuration, then `Update`
    -- succeeds, and `Reload` gives the configuration back and changes nothing.
    pub update-reload :
        (write : Write) (m : Manager F) (cfg : Config F) (disk : Disk) (text : Text) (time : Time)
        → IsFaithful codec cfg
        → IsUsable cfg
        → IsComplete cfg
        → saved_text codec m.path (some cfg) ≡ ok text
        → write text disk ≡ (true, some (record { content = text; mod_time = time }))
        → let done = update codec write m (some cfg) disk in
          (done.0 ≡ ok true) × (get done.1 ≡ cfg) × (reload codec done.1 done.2 ≡ (ok cfg, done.1))
    unfolding update reload
    update-reload write m cfg disk text time f u c s w =
        rw (s, w, saved_text-load m.path text cfg f u c s) (refl, refl, refl)

    -- A file that is missing, or that does not load.
    abbrev pub IsUnusable : Disk → Type 0
    IsUnusable disk = Ensures (λ cfg. ⊥) (load codec (content_of disk))

    watch_tick-IsUnusable :
        (m : Manager F) (disk : Disk) → IsUnusable disk → (watch_tick codec m disk).0 ≡ m
    unfolding watch_tick reload
    watch_tick-IsUnusable m disk bad = kept (needs_reload m disk)
      where
        refused_kept :
            (r : Outcome LoadError (Config F))
            → Ensures (λ cfg. ⊥) r
            → (reload_with codec m disk r).1 ≡ m
        refused_kept (err e) b = refl
        refused_kept (ok cfg) b = absurd b

        kept : (n : Option Bool) → (tick_with codec m disk n).0 ≡ m
        kept none = refl
        kept (some false) = refl
        kept (some true) = refused_kept (load codec (content_of disk)) bad

    watch-append :
        (m : Manager F) (before after : List Disk)
        → (watch codec m (before ++ after)).0 ≡ (watch codec (watch codec m before).0 after).0
    unfolding watch
    watch-append m [] after = refl
    watch-append m (disk ∷ before) after = watch-append (watch_tick codec m disk).0 before after

    watch_unusable :
        (m : Manager F) (disks : List Disk) → All IsUnusable disks → (watch codec m disks).0 ≡ m
    unfolding watch
    watch_unusable m [] bad = refl
    watch_unusable m (disk ∷ disks) bad =
        rw (watch_tick-IsUnusable m disk bad.0) (watch_unusable m disks bad.1)

    watch_tick_newer :
        (m : Manager F) (file : File) (cfg : Config F)
        → load codec (some file.content) ≡ ok cfg
        → ltb_ℤ m.mod_time file.mod_time ≡ true
        → watch_tick codec m (some file) ≡ (install cfg (some file) m, reloaded cfg)
    unfolding watch_tick reload needs_reload
    watch_tick_newer m file cfg good newer = rw (newer, good) refl

    watch_found :
        (m : Manager F) (bad : List Disk) (file : File) (cfg : Config F)
        → All IsUnusable bad
        → load codec (some file.content) ≡ ok cfg
        → ltb_ℤ m.mod_time file.mod_time ≡ true
        → (watch codec m (bad ++ (some file ∷ []))).0 ≡ install cfg (some file) m
    unfolding watch
    watch_found m bad file cfg unusable good newer =
        watch-append m bad (some file ∷ [])
        ∙ ap (λ k. (watch_tick codec k (some file)).0) (watch_unusable m bad unusable)
        ∙ ap (λ t. t.0) (watch_tick_newer m file cfg good newer)

    watch_tick_again :
        (m : Manager F) (file : File) (cfg : Config F)
        → watch_tick codec (install cfg (some file) m) (some file)
          ≡ (install cfg (some file) m, quiet)
    unfolding watch_tick needs_reload
    watch_tick_again m file cfg = rw (ltb_ℤ_irrefl file.mod_time) refl

    -- Whatever goes wrong with the file, the manager recovers: after any number of ticks that found no
    -- file or one that does not load, the first tick that finds a newer file that loads puts that file's
    -- configuration in force, and the next tick on it is quiet.
    pub watch_recovers :
        (m : Manager F) (bad : List Disk) (file : File) (cfg : Config F)
        → All IsUnusable bad
        → load codec (some file.content) ≡ ok cfg
        → ltb_ℤ m.mod_time file.mod_time ≡ true
        → let now = (watch codec m (bad ++ (some file ∷ []))).0 in
          (get now ≡ cfg) × (watch_tick codec now (some file) ≡ (now, quiet))
    watch_recovers m bad file cfg unusable good newer =
        rw (watch_found m bad file cfg unusable good newer) (refl, watch_tick_again m file cfg)
