-- ===== src/Api/Sanitize.antt =====
-- Cleaning the lists changes nothing in what they allow.
use rfguard.Common.Tests.{
  ◌≡◌, ◌≢◌, refl, ap, sym, ◌∙◌, true, false, ◌||◌, List, [], ◌∷◌, arith, Bool-cases, inl, inr,
}
use rfguard.Common.Eq.{◌==◌}
use rfguard.Common.Maps.{Map, insert, has, has-insert, Distinct, insert-Distinct}
use rfguard.Common.Lists.{All}
use rfguard.Common.Text.{Text, text_eq, eq_text_iff, is_empty, trim_space, trim_space_idem}
use rfguard.Access.{normalize_uid}
use rfguard.Access.Uid.{normalize_uid-hex_digits, hex_digits-trim_space}
use rfguard.Access.Policy.{lists}
use rfguard.Config.{is_nil}
use rfguard.Api.{sanitize_uid_list, sanitize_loop, sanitize_reader_lists}

normalize_uid-trim_space : (v : Text) → normalize_uid (trim_space v) ≡ normalize_uid v
normalize_uid-trim_space v =
    normalize_uid-hex_digits (trim_space v)
    ∙ hex_digits-trim_space v
    ∙ sym (normalize_uid-hex_digits v)

normalize_uid_blank : (v : Text) → is_empty (trim_space v) ≡ true → normalize_uid v ≡ []
unfolding normalize_uid
normalize_uid_blank v h = rw h refl

lists-sanitize :
    (values : List Text) (uid : Text)
    → is_empty uid ≡ false
    → lists (sanitize_uid_list values) uid ≡ lists values uid
unfolding sanitize_uid_list
lists-sanitize [] uid h = refl
lists-sanitize (v ∷ values) uid h = elim (Bool-cases (is_empty (trim_space v))) [
  | inl blank ↦
      rw (blank, normalize_uid_blank v blank) (ground (arith, h, lists-sanitize values uid h))
  | inr full ↦
      rw (full, normalize_uid-trim_space v)
        (ap (λ b. normalize_uid v == uid || b) (lists-sanitize values uid h))
]

sanitize_uid_list_idem :
    (values : List Text) → sanitize_uid_list (sanitize_uid_list values) ≡ sanitize_uid_list values
unfolding sanitize_uid_list
sanitize_uid_list_idem [] = refl
sanitize_uid_list_idem (v ∷ values) = elim (Bool-cases (is_empty (trim_space v))) [
  | inl blank ↦ rw blank (sanitize_uid_list_idem values)
  | inr full ↦
      rw (full, trim_space_idem v, full) (ap (◌∷◌ (trim_space v)) (sanitize_uid_list_idem values))
]

-- A cleaned list allows or forbids the same UIDs as the list that was sent, and cleaning it again
-- changes nothing.
pub sanitize_uid_list_lem :
    (values : List Text) (uid : Text)
    → uid ≢ []
    → (lists (sanitize_uid_list values) uid ≡ lists values uid)
      × (sanitize_uid_list (sanitize_uid_list values) ≡ sanitize_uid_list values)
sanitize_uid_list_lem values [] h = absurd (h refl)
sanitize_uid_list_lem values (c ∷ uid) h =
    (lists-sanitize values (c ∷ uid) refl, sanitize_uid_list_idem values)

-- No reader twice, none without a name, and none with an empty list.
pub record IsClean (by_reader : Map Text (List Text)) : Type 0 where
  pub distinct : Distinct by_reader
  pub named : has [] by_reader ≡ false
  pub listed : All (λ e. is_nil e.1 ≡ false) by_reader

All-insert :
    (reader : Text) (list : List Text) (m : Map Text (List Text))
    → is_nil list ≡ false
    → All (λ e. is_nil e.1 ≡ false) m
    → All (λ e. is_nil e.1 ≡ false) (insert reader list m)
unfolding insert
All-insert reader list [] h a = (h, tt)
All-insert reader list ((r, l) ∷ m) h a = elim (Bool-cases (r == reader)) [
  | inl same ↦ rw same (h, a.1)
  | inr other ↦ rw other (a.0, All-insert reader list m h a.1)
]

insert-IsClean :
    (reader : Text) (list : List Text) (m : Map Text (List Text))
    → is_empty reader ≡ false
    → is_nil list ≡ false
    → IsClean m
    → IsClean (insert reader list m)
insert-IsClean reader list m r l c = record {
  distinct = insert-Distinct reader list m c.distinct;
  named = ground (arith, has-insert reader [] list m, c.named, eq_text_iff reader []);
  listed = All-insert reader list m l c.listed;
}

sanitize_loop-IsClean :
    (values out : Map Text (List Text)) → IsClean out → IsClean (sanitize_loop values out)
unfolding sanitize_loop
sanitize_loop-IsClean [] out c = c
sanitize_loop-IsClean ((reader, list) ∷ values) out c =
    let name = trim_space reader in
    let clean = sanitize_uid_list list in
    elim (Bool-cases (is_empty name || is_nil clean)) [
      | inl skipped ↦ rw skipped (sanitize_loop-IsClean values out c)
      | inr kept ↦ rw kept (
          sanitize_loop-IsClean values (insert name clean out)
            (insert-IsClean name clean out (ground arith) (ground arith) c))
    ]

-- Cleaned lists by reader name each reader once, never with an empty name or an empty list.
pub sanitize_reader_lists-IsClean :
    (values : Map Text (List Text)) → IsClean (sanitize_reader_lists values)
unfolding sanitize_reader_lists has
sanitize_reader_lists-IsClean values =
    sanitize_loop-IsClean values [] (record { distinct = tt; named = refl; listed = tt })
