-- ===== src/Config/Load.antt =====
-- internal/config/config.go, `Load` and `Save`: the file of the configuration. The decoders and encoders of JSON and YAML are
-- parameters.
use rfguard.Common.Tests.{
  Bool, true, false, ◌||◌, [], ◌∷◌, Option, none, some, eqb, ltb, if◌then◌else◌,
}
use rfguard.Common.Eq.{◌==◌}
use rfguard.Common.Result.{Outcome, ok, err, ◌>>=◌}
use rfguard.Common.Text.{Text, text_eq, codes, is_empty, to_lower, trim_space}
use rfguard.Common.Float.{Float}
use rfguard.Config.{Config, ValidationError, apply_defaults, default_config, validate}

-- `Unmarshal` writes what the text has into a configuration, and leaves the rest of it alone.
pub record Codec (F : Type 0) : Type 0 where
  pub from_json : Text → Config F → Option (Config F)
  pub from_yaml : Text → Config F → Option (Config F)
  pub to_json : Config F → Option Text
  pub to_yaml : Config F → Option Text

pub data LoadError : Type 0 where
  unreadable empty undecodable : LoadError
  invalid : ValidationError → LoadError

pub data SaveError : Type 0 where
  no_path_or_config unencodable unwritable : SaveError

-- `looksLikeJSON`
unfoldable pub looks_like_json : Text → Bool
looks_like_json [] = false
looks_like_json (c ∷ s) =
    let rest = looks_like_json s in
    if eqb c b'{' || eqb c b'[' then true else if ltb b' ' c then false else rest

-- `filepath.Ext` of a slash-separated path: what stands from the last dot of its last element on.
unfoldable pub ext_from : Text → Text → Text
ext_from found [] = found
ext_from found (c ∷ s) = ext_from (if eqb c b'/' then [] else if eqb c b'.' then c ∷ s else found) s

abbrev pub ext : Text → Text
ext path = ext_from [] path

abbrev pub or_fail {ℓ} : {E A : Type ℓ} → E → Option A → Outcome E A
or_fail e none = err e
or_fail e (some a) = ok a

module _ {F : Type 0} ⦃d : Float F⦄ (codec : Codec F) where
  unfoldable pub decode : Text → Option (Config F)
  decode text =
      if looks_like_json text
      then codec.from_json text default_config
      else codec.from_yaml text default_config

  -- The end of `Load`, after decoding.
  unfoldable pub checked : Config F → Outcome LoadError (Config F)
  checked cfg = elim (validate (apply_defaults cfg)) [
    | none ↦ ok (apply_defaults cfg)
    | some e ↦ err (invalid e)
  ]

  -- `Load` of a file with this content, or of one that cannot be read.
  unfoldable pub load : Option Text → Outcome LoadError (Config F)
  unfolding decode checked
  load content = do
    text ← or_fail unreadable content
    cfg ←
        if is_empty (trim_space text)
        then err empty
        else or_fail undecodable (decode (trim_space text))
    checked cfg

  unfoldable pub encode : Text → Config F → Option Text
  encode path cfg =
      if to_lower (ext path) == codes ".json" then codec.to_json cfg else codec.to_yaml cfg

  -- What `Save` writes, if it comes to that.
  unfoldable pub saved_text : Text → Option (Config F) → Outcome SaveError Text
  unfolding encode
  saved_text path none = err no_path_or_config
  saved_text path (some cfg) =
      if is_empty path then err no_path_or_config else or_fail unencodable (encode path cfg)
