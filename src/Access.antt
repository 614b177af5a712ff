-- ===== src/Access.antt =====
-- internal/engine/access_control.go: the UID lists as sets, and their lookup. A set is a map to the
-- one value of `struct{}`; nil maps are `none`.
pub mod Uid
pub mod Policy
use rfguard.Common.Tests.{
  ℕ, ◌+◌, ◌-◌, ◌≡◌, Bool, true, false, not, ◌&&◌, ◌||◌, List, [], ◌∷◌, Option, none, some, leb,
  if◌then◌else◌,
}
use rfguard.Common.Text.{Text, text_eq, is_empty, trim_space}
use rfguard.Common.Maps.{Map, lookup, insert, has}
use rfguard.Config.{AccessControlConfig, is_nil}

abbrev pub UidSet : Type 0
UidSet = Map Text (Unit {0})

pub record AccessControlSet : Type 0 where
  pub enabled : Bool
  pub whitelist_only : Bool
  pub global_whitelist : Option UidSet
  pub global_blacklist : Option UidSet
  pub reader_whitelists : Option (Map Text UidSet)
  pub reader_blacklists : Option (Map Text UidSet)

-- The `switch` in `normalizeUID`: what is written for a character, if anything.
unfoldable pub hex_digit : ℕ → Option ℕ
hex_digit r =
    if leb b'0' r && leb r b'9'
    then some r
    else if leb b'A' r && leb r b'F'
    then some r
    else if leb b'a' r && leb r b'f'
    then some (r - b'a' + b'A')
    else none

unfoldable pub hex_digits : Text → Text
unfolding hex_digit
hex_digits [] = []
hex_digits (r ∷ rest) = elim (hex_digit r) [ none ↦ hex_digits rest | some c ↦ c ∷ hex_digits rest ]

unfoldable pub normalize_uid : Text → Text
unfolding hex_digits
normalize_uid uid =
    let trimmed = trim_space uid in if is_empty trimmed then [] else hex_digits trimmed

-- The loop in `buildUIDSet`.
unfoldable pub add_uids : List Text → UidSet → UidSet
add_uids [] set = set
add_uids (v ∷ values) set =
    let uid = normalize_uid v in add_uids values (if is_empty uid then set else insert uid tt set)

-- A map, or nil where it is empty.
abbrev pub or_nil {ℓ} : {A : Type ℓ} → List A → Option (List A)
or_nil [] = none
or_nil (x ∷ xs) = some (x ∷ xs)

unfoldable pub build_uid_set : List Text → Option UidSet
unfolding add_uids
build_uid_set values = if is_nil values then none else or_nil (add_uids values [])

abbrev pub add_reader : Text → Option UidSet → Map Text UidSet → Map Text UidSet
add_reader reader none out = out
add_reader reader (some set) out = insert reader set out

-- The loop in `buildUIDMap`.
unfoldable pub add_readers : Map Text (List Text) → Map Text UidSet → Map Text UidSet
add_readers [] out = out
add_readers ((reader, list) ∷ values) out =
    add_readers values (add_reader reader (build_uid_set list) out)

unfoldable pub build_uid_map : Map Text (List Text) → Option (Map Text UidSet)
unfolding add_readers
build_uid_map values = if is_nil values then none else or_nil (add_readers values [])

unfoldable pub build_access_control : AccessControlConfig → AccessControlSet
unfolding build_uid_set build_uid_map
build_access_control cfg =
    if cfg.enabled
    then record {
      enabled = cfg.enabled;
      whitelist_only = cfg.whitelist_only;
      global_whitelist = build_uid_set cfg.whitelist;
      global_blacklist = build_uid_set cfg.blacklist;
      reader_whitelists = build_uid_map cfg.reader_whitelists;
      reader_blacklists = build_uid_map cfg.reader_blacklists;
    }
    else record {
      enabled = cfg.enabled;
      whitelist_only = cfg.whitelist_only;
      global_whitelist = none;
      global_blacklist = none;
      reader_whitelists = none;
      reader_blacklists = none;
    }

-- `_, ok := set[uid]`, on a set that may be nil.
abbrev pub in_set : Text → Option UidSet → Bool
in_set uid none = false
in_set uid (some set) = has uid set

-- The set of a reader.
abbrev pub reader_set : Text → Option (Map Text UidSet) → Option UidSet
reader_set reader_id none = none
reader_set reader_id (some m) = lookup reader_id m

-- The body that `IsBlacklisted` and `IsWhitelisted` share: each over its own two lists.
abbrev pub listed : Option UidSet → Option (Map Text UidSet) → Text → Text → Bool
listed everywhere by_reader reader_id uid =
    if is_empty uid
    then false
    else if in_set uid everywhere
    then true
    else in_set uid (reader_set reader_id by_reader)

-- The set that `a` points to, or nil.
unfoldable pub is_blacklisted : Option AccessControlSet → Text → Text → Bool
is_blacklisted none reader_id uid = false
is_blacklisted (some a) reader_id uid = listed a.global_blacklist a.reader_blacklists reader_id uid

unfoldable pub is_whitelisted : Option AccessControlSet → Text → Text → Bool
is_whitelisted none reader_id uid = false
is_whitelisted (some a) reader_id uid = listed a.global_whitelist a.reader_whitelists reader_id uid
