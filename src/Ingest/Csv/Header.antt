-- ===== src/Ingest/Csv/Header.antt =====
-- With a header, what a column gives depends on its name and not on its place.
use rfguard.Common.Tests.{
  ◌≡◌, refl, ◌∙◌, Bool, true, false, List, [], ◌∷◌, ◌++◌, if◌then◌else◌, arith, Bool-cases, inl,
  inr,
}
use mathlib.Core.Path.{subst}
use rfguard.Common.Eq.{◌==◌}
use rfguard.Common.Keys.{contains}
use rfguard.Common.Lists.{All, length}
use rfguard.Common.Text.{Text, text_eq, eq_text_iff, trim_space}
use rfguard.Normalize.{EventFields}
use rfguard.Ingest.Fields.{timestamp_names, reader_names, uid_names, result_names, error_names}
use rfguard.Ingest.Csv.{clean_name, assign_field, assign_fields}

-- The fields that have names of their own.
pub data Slot : Type 0 where
  timestamp reader_id uid result error_code : Slot

abbrev pub names_of : Slot → List Text
names_of timestamp = timestamp_names
names_of reader_id = reader_names
names_of uid = uid_names
names_of result = result_names
names_of error_code = error_names

abbrev pub slot_of : Slot → EventFields → Text
slot_of timestamp fields = fields.timestamp
slot_of reader_id fields = fields.reader_id
slot_of uid fields = fields.uid
slot_of result fields = fields.result
slot_of error_code fields = fields.error_code

-- What holds of each name of a list holds of what the list contains.
All-contains :
    (P : Text → Type 0) (n : Text) (names : List Text) → contains n names ≡ true → All P names → P n
All-contains P n [] h a = ground (arith, h)
All-contains P n (x ∷ names) h a = elim (Bool-cases (x == n)) [
  | inl same ↦ subst P ((eq_text_iff x n).0 same) a.0
  | inr other ↦ All-contains P n names (ground (arith, h, other)) a.1
]

-- No name belongs to two fields.
apart :
    (others names : List Text) (n : Text)
    → contains n names ≡ true
    → All (λ m. contains m others ≡ false) names
    → contains n others ≡ false
apart others names n h a = All-contains (λ m. contains m others ≡ false) n names h a

assign_field-named :
    (slot : Slot) (fields : EventFields) (name value : Text)
    → contains (clean_name name) (names_of slot) ≡ true
    → slot_of slot (assign_field fields name value) ≡ trim_space value
unfolding assign_field
assign_field-named timestamp fields name value h = rw h refl
assign_field-named reader_id fields name value h =
    let not_timestamp =
      apart timestamp_names reader_names (clean_name name) h
        (refl, (refl, (refl, (refl, (refl, tt))))) in
    rw (not_timestamp, h) refl
assign_field-named uid fields name value h =
    let not_timestamp =
      apart timestamp_names uid_names (clean_name name) h (refl, (refl, (refl, (refl, tt)))) in
    let not_reader =
      apart reader_names uid_names (clean_name name) h (refl, (refl, (refl, (refl, tt)))) in
    rw (not_timestamp, not_reader, h) refl
assign_field-named result fields name value h =
    let not_timestamp =
      apart timestamp_names result_names (clean_name name) h (refl, (refl, (refl, tt))) in
    let not_reader =
      apart reader_names result_names (clean_name name) h (refl, (refl, (refl, tt))) in
    let not_uid = apart uid_names result_names (clean_name name) h (refl, (refl, (refl, tt))) in
    rw (not_timestamp, not_reader, not_uid, h) refl
assign_field-named error_code fields name value h =
    let not_timestamp =
      apart timestamp_names error_names (clean_name name) h (refl, (refl, (refl, tt))) in
    let not_reader =
      apart reader_names error_names (clean_name name) h (refl, (refl, (refl, tt))) in
    let not_uid = apart uid_names error_names (clean_name name) h (refl, (refl, (refl, tt))) in
    let not_result =
      apart result_names error_names (clean_name name) h (refl, (refl, (refl, tt))) in
    rw (not_timestamp, not_reader, not_uid, not_result, h) refl

abbrev by_tests : Bool → Bool → Bool → Bool → Bool → EventFields → Text → EventFields → EventFields
by_tests t r u s e fields v other =
    if t
    then record fields { timestamp = v }
    else if r
    then record fields { reader_id = v }
    else if u
    then record fields { uid = v }
    else if s
    then record fields { result = v }
    else if e
    then record fields { error_code = v }
    else other

abbrev test_of : Slot → Bool → Bool → Bool → Bool → Bool → Bool
test_of timestamp t r u s e = t
test_of reader_id t r u s e = r
test_of uid t r u s e = u
test_of result t r u s e = s
test_of error_code t r u s e = e

by_tests-other :
    (slot : Slot) (t r u s e : Bool) (fields : EventFields) (v : Text) (other : EventFields)
    → test_of slot t r u s e ≡ false
    → slot_of slot other ≡ slot_of slot fields
    → slot_of slot (by_tests t r u s e fields v other) ≡ slot_of slot fields
by_tests-other timestamp t r u s e fields v other h q = ground (arith, h, q)
by_tests-other reader_id t r u s e fields v other h q = ground (arith, h, q)
by_tests-other uid t r u s e fields v other h q = ground (arith, h, q)
by_tests-other result t r u s e fields v other h q = ground (arith, h, q)
by_tests-other error_code t r u s e fields v other h q = ground (arith, h, q)

assign_field-other :
    (slot : Slot) (fields : EventFields) (name value : Text)
    → contains (clean_name name) (names_of slot) ≡ false
    → slot_of slot (assign_field fields name value) ≡ slot_of slot fields
unfolding assign_field
assign_field-other timestamp fields name value h =
    by_tests-other timestamp (contains (clean_name name) timestamp_names)
      (contains (clean_name name) reader_names) (contains (clean_name name) uid_names)
      (contains (clean_name name) result_names) (contains (clean_name name) error_names) fields _ _
      h refl
assign_field-other reader_id fields name value h =
    by_tests-other reader_id (contains (clean_name name) timestamp_names)
      (contains (clean_name name) reader_names) (contains (clean_name name) uid_names)
      (contains (clean_name name) result_names) (contains (clean_name name) error_names) fields _ _
      h refl
assign_field-other uid fields name value h =
    by_tests-other uid (contains (clean_name name) timestamp_names)
      (contains (clean_name name) reader_names) (contains (clean_name name) uid_names)
      (contains (clean_name name) result_names) (contains (clean_name name) error_names) fields _ _
      h refl
assign_field-other result fields name value h =
    by_tests-other result (contains (clean_name name) timestamp_names)
      (contains (clean_name name) reader_names) (contains (clean_name name) uid_names)
      (contains (clean_name name) result_names) (contains (clean_name name) error_names) fields _ _
      h refl
assign_field-other error_code fields name value h =
    by_tests-other error_code (contains (clean_name name) timestamp_names)
      (contains (clean_name name) reader_names) (contains (clean_name name) uid_names)
      (contains (clean_name name) result_names) (contains (clean_name name) error_names) fields _ _
      h refl

assign_fields-other :
    (slot : Slot) (fields : EventFields) (header values : List Text)
    → All (λ n. contains (clean_name n) (names_of slot) ≡ false) header
    → slot_of slot (assign_fields fields header values) ≡ slot_of slot fields
unfolding assign_fields
assign_fields-other slot fields [] values h = refl
assign_fields-other slot fields (name ∷ header) [] h = refl
assign_fields-other slot fields (name ∷ header) (value ∷ values) h =
    assign_fields-other slot (assign_field fields name value) header values h.1
    ∙ assign_field-other slot fields name value h.0

-- A column gives its field by its name, wherever it stands: if the name of a column is one of a
-- field's, and that of no later column is, then the field is that column's value, without the space
-- around it.
pub assign_fields_lem :
    (slot : Slot) (fields : EventFields) (name value : Text) (before after values rest : List Text)
    → length before ≡ length values
    → contains (clean_name name) (names_of slot) ≡ true
    → All (λ n. contains (clean_name n) (names_of slot) ≡ false) after
    → slot_of slot (assign_fields fields (before ++ (name ∷ after)) (values ++ (value ∷ rest)))
      ≡ trim_space value
unfolding assign_fields
assign_fields_lem slot fields name value [] after [] rest l h a =
    assign_fields-other slot (assign_field fields name value) after rest a
    ∙ assign_field-named slot fields name value h
assign_fields_lem slot fields name value [] after (v ∷ values) rest l h a =
    absurd (omega (arith, l))
assign_fields_lem slot fields name value (n ∷ before) after [] rest l h a =
    absurd (omega (arith, l))
assign_fields_lem slot fields name value (n ∷ before) after (v ∷ values) rest l h a =
    assign_fields_lem slot (assign_field fields n v) name value before after values rest
      (omega (arith, l)) h a
