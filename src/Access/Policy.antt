-- ===== src/Access/Policy.antt =====
-- The sets that are built from a configuration decide the policy that its lists state.
use rfguard.Common.Tests.{
  ◌≡◌, ◌≢◌, refl, ◌∙◌, Bool, true, false, ◌||◌, List, [], ◌∷◌, Option, none, some, if◌then◌else◌,
  arith, map, Bool-cases, inl, inr,
}
use rfguard.Common.Eq.{◌==◌}
use rfguard.Common.Keys.{contains}
use rfguard.Common.Text.{Text, text_eq, eq_text_iff, is_empty}
use rfguard.Common.Maps.{
  Map, lookup, insert, has, has-insert, lookup-insert, Distinct, lookup_of_has,
}
use rfguard.Config.{AccessControlConfig}
use rfguard.Access.{
  UidSet, normalize_uid, add_uids, or_nil, build_uid_set, add_reader, add_readers, build_uid_map,
  build_access_control, in_set, reader_set, is_blacklisted, is_whitelisted,
}

-- The policy as the lists state it.
abbrev pub lists : List Text → Text → Bool
lists values uid = contains uid (map normalize_uid values)

abbrev pub lists_for : Map Text (List Text) → Text → Text → Bool
lists_for by_reader reader_id uid = elim (lookup reader_id by_reader) [
  | none ↦ false
  | some values ↦ lists values uid
]

abbrev pub policy : List Text → Map Text (List Text) → Text → Text → Bool
policy values by_reader reader_id uid = lists values uid || lists_for by_reader reader_id uid

has-add_uids :
    (values : List Text) (set : UidSet) (uid : Text)
    → is_empty uid ≡ false
    → has uid (add_uids values set) ≡ (has uid set || lists values uid)
unfolding add_uids
has-add_uids [] set uid h = ground arith
has-add_uids (v ∷ values) set uid h = ground (
  arith,
  has-add_uids values (if is_empty (normalize_uid v) then set else insert (normalize_uid v) tt set)
      uid h,
  has-insert (normalize_uid v) uid tt set,
  eq_text_iff (normalize_uid v) uid,
)

in_set-or_nil : (uid : Text) (set : UidSet) → in_set uid (or_nil set) ≡ has uid set
unfolding has
in_set-or_nil uid [] = refl
in_set-or_nil uid (e ∷ set) = refl

in_set-build_uid_set :
    (values : List Text) (uid : Text)
    → is_empty uid ≡ false
    → in_set uid (build_uid_set values) ≡ lists values uid
unfolding build_uid_set
in_set-build_uid_set [] uid h = refl
in_set-build_uid_set (v ∷ values) uid h =
    in_set-or_nil uid (add_uids (v ∷ values) []) ∙ unfold has in has-add_uids (v ∷ values) [] uid h

lookup-add_reader :
    (reader r uid : Text) (o : Option UidSet) (out : Map Text UidSet)
    → (reader ≡ r → lookup r out ≡ none)
    → in_set uid (lookup r (add_reader reader o out))
      ≡ (in_set uid (lookup r out) || (if reader == r then in_set uid o else false))
lookup-add_reader reader r uid none out h = ground (arith, eq_text_iff reader r)
lookup-add_reader reader r uid (some set) out h =
    ground (arith, lookup-insert reader r set out, eq_text_iff reader r, h)

lookup-add_reader_ne :
    (reader r : Text) (o : Option UidSet) (out : Map Text UidSet)
    → (reader == r) ≡ false
    → lookup r (add_reader reader o out) ≡ lookup r out
lookup-add_reader_ne reader r none out miss = refl
lookup-add_reader_ne reader r (some set) out miss = ground (arith, lookup-insert reader r set out)

reader_set-or_nil :
    (r uid : Text) (m : Map Text UidSet)
    → in_set uid (reader_set r (or_nil m)) ≡ in_set uid (lookup r m)
reader_set-or_nil r uid [] = unfold lookup in refl
reader_set-or_nil r uid (e ∷ m) = refl

-- What the sets say of a reader, from a map that says nothing of the readers to come.
in_set-add_readers :
    (values : Map Text (List Text)) (out : Map Text UidSet) (r uid : Text)
    → is_empty uid ≡ false
    → Distinct values
    → (has r values ≡ true → lookup r out ≡ none)
    → in_set uid (lookup r (add_readers values out))
      ≡ (in_set uid (lookup r out) || lists_for values r uid)
unfolding add_readers lookup
in_set-add_readers [] out r uid h d new = ground arith
in_set-add_readers ((reader, list) ∷ values) out r uid h d new =
    let next = add_reader reader (build_uid_set list) out in
    let set_says = in_set-build_uid_set list uid h in
    let first : reader ≡ r → lookup r out ≡ none =
      λ e. new (unfold has in ground (arith, eq_text_iff reader r)) in
    let step = lookup-add_reader reader r uid (build_uid_set list) out first in
    elim (Bool-cases (reader == r)) [
      | inl hit ↦
          let same = (eq_text_iff reader r).0 hit in
          let alone : has r values ≡ false = rw same at d.0 in
          let rest = in_set-add_readers values next r uid h d.1 (λ p. ground arith) in
          ground (arith, step, set_says, rest, first same, lookup_of_has r values alone)
      | inr miss ↦
          let kept = lookup-add_reader_ne reader r (build_uid_set list) out miss in
          let later : has r values ≡ true → lookup r out ≡ none =
            λ p. new (unfold has in ground arith) in
          let rest = in_set-add_readers values next r uid h d.1 (λ p. kept ∙ later p) in
          ground (arith, kept, rest)
    ]

in_set-build_uid_map :
    (values : Map Text (List Text)) (r uid : Text)
    → is_empty uid ≡ false
    → Distinct values
    → in_set uid (reader_set r (build_uid_map values)) ≡ lists_for values r uid
unfolding build_uid_map
in_set-build_uid_map [] r uid h d = unfold lookup in refl
in_set-build_uid_map (e ∷ values) r uid h d =
    reader_set-or_nil r uid (add_readers (e ∷ values) [])
    ∙ in_set-add_readers (e ∷ values) [] r uid h d (λ p. unfold lookup in refl)
    ∙ unfold lookup in refl

-- On an enabled configuration, a non-empty UID is black-listed just if the black list or that of the
-- reader holds an entry with the same digits, and white-listed just if a white list does.
pub policy_lem :
    (cfg : AccessControlConfig) (r uid : Text)
    → cfg.enabled ≡ true
    → uid ≢ []
    → Distinct cfg.reader_blacklists
    → Distinct cfg.reader_whitelists
    → (is_blacklisted (some (build_access_control cfg)) r uid
        ≡ policy cfg.blacklist cfg.reader_blacklists r uid)
      × (is_whitelisted (some (build_access_control cfg)) r uid
          ≡ policy cfg.whitelist cfg.reader_whitelists r uid)
unfolding is_blacklisted is_whitelisted build_access_control
policy_lem cfg r [] on nonempty db dw = absurd (nonempty refl)
policy_lem cfg r (c ∷ uid) on nonempty db dw = rw on (
  ground (
    arith,
    in_set-build_uid_set cfg.blacklist (c ∷ uid) refl,
    in_set-build_uid_map cfg.reader_blacklists r (c ∷ uid) refl db,
  ),
  ground (
    arith,
    in_set-build_uid_set cfg.whitelist (c ∷ uid) refl,
    in_set-build_uid_map cfg.reader_whitelists r (c ∷ uid) refl dw,
  ),
)
