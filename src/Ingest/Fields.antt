-- ===== src/Ingest/Fields.antt =====
-- internal/ingest/json.go, and the tables of names that the parsers share. What `json.Unmarshal` and
-- `fmt.Sprint` give is a parameter.
use rfguard.Common.Tests.{List, [], ◌∷◌, Option, none, some, if◌then◌else◌}
use rfguard.Common.Maps.{Map, lookup, insert}
use rfguard.Common.Text.{Text, text_eq, codes, is_empty, trim_space, to_lower}
use rfguard.Normalize.{EventFields}

abbrev pub no_fields : EventFields
no_fields = record {
  timestamp = [];
  reader_id = [];
  uid = [];
  result = [];
  error_code = [];
  extras = [];
  raw = [];
}

abbrev pub timestamp_names : List Text
timestamp_names = codes "timestamp" ∷ codes "time" ∷ codes "ts" ∷ []

abbrev pub reader_names : List Text
reader_names =
    codes "reader_id" ∷ codes "reader" ∷ codes "readerid" ∷ codes "device" ∷ codes "terminal" ∷ []

abbrev pub uid_names : List Text
uid_names = codes "uid" ∷ codes "card" ∷ codes "card_id" ∷ codes "cardid" ∷ []

abbrev pub result_names : List Text
result_names = codes "result" ∷ codes "status" ∷ codes "outcome" ∷ []

abbrev pub error_names : List Text
error_names = codes "error" ∷ codes "error_code" ∷ codes "err" ∷ []

-- `m[k]`, which is empty for a key that is missing.
abbrev pub text_or_empty : Option Text → Text
text_or_empty none = []
text_or_empty (some v) = v

unfoldable pub first_non_empty : Map Text Text → List Text → Text
first_non_empty m [] = []
first_non_empty m (k ∷ keys) =
    let v = trim_space (text_or_empty (lookup k m)) in
    let rest = first_non_empty m keys in if is_empty v then rest else v

-- What the code does with `encoding/json` and `fmt`.
pub record Json (Value : Type 0) : Type 0 where
  pub unmarshal : Text → Option (Map Text Value)
  pub unmarshal_list : Text → Option (List (Map Text Value))
  pub sprint : Value → Text

module _ {Value : Type 0} (json : Json Value) where
  -- The loop over the object, in the order in which `range` visits it.
  unfoldable pub sprint_all : Map Text Value → Map Text Text → Map Text Text
  sprint_all [] extras = extras
  sprint_all ((key, val) ∷ obj) extras =
      sprint_all obj (insert (to_lower key) (json.sprint val) extras)

  unfoldable pub parse_json_map : Map Text Value → EventFields
  unfolding sprint_all first_non_empty
  parse_json_map obj =
      let extras = sprint_all obj [] in
      record {
        timestamp = first_non_empty extras timestamp_names;
        reader_id = first_non_empty extras reader_names;
        uid = first_non_empty extras uid_names;
        result = first_non_empty extras result_names;
        error_code = first_non_empty extras error_names;
        extras = extras;
        raw = [];
      }

  unfoldable pub parse_json_bytes : Text → Option EventFields
  unfolding parse_json_map
  parse_json_bytes text = elim (json.unmarshal text) [
    | none ↦ none
    | some obj ↦ some (parse_json_map obj)
  ]
