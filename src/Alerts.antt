-- ===== src/Alerts.antt =====
-- internal/alerts/store.go: the bounded buffer of recent alerts. A call is atomic under the mutex.
pub mod Recent
use rfguard.Common.Tests.{
  ℕ, zero, suc, ◌+◌, ◌-◌, ◌≡◌, Bool, true, false, not, ◌||◌, List, [], ◌∷◌, ◌++◌, if◌then◌else◌,
}
use rfguard.Common.Lists.{length, drop, filter}
use rfguard.Common.Int.{ℤ, pos, pos_part, leb_ℤ, ltb_ℤ}
use rfguard.Common.Clock.{Time, before}
use rfguard.Model.{Alert}

pub record Store (F : Type 0) : Type 0 where
  pub buf : List (Alert F)
  pub limit : ℤ

abbrev pub default_limit : ℤ
default_limit = pos 1000

unfoldable pub effective_limit : ℤ → ℤ
effective_limit limit = if leb_ℤ limit (pos 0) then default_limit else limit

-- `copy(buf, buf[1:])` and the write to the last place. The code would panic on an empty slice: the
-- limit is positive, so a full buffer is not empty.
abbrev pub shift_in {ℓ} : {A : Type ℓ} → List A → A → List A
shift_in [] a = []
shift_in (x ∷ xs) a = xs ++ a ∷ []

-- How many alerts `List` returns of `n`.
abbrev pub clip : ℕ → ℤ → ℕ
clip n limit = if leb_ℤ limit (pos 0) || ltb_ℤ (pos n) limit then n else pos_part limit

module _ {F : Type 0} where
  unfoldable pub new_store : ℤ → Store F
  unfolding effective_limit
  new_store limit = record { buf = []; limit = effective_limit limit }

  unfoldable pub add : Store F → Alert F → Store F
  add s alert =
      if ltb_ℤ (pos (length s.buf)) s.limit
      then record s { buf = s.buf ++ alert ∷ [] }
      else record s { buf = shift_in s.buf alert }

  unfoldable pub list : Store F → ℤ → List (Alert F)
  list s limit = drop (length s.buf - clip (length s.buf) limit) s.buf

  unfoldable pub since : Store F → Time → List (Alert F)
  since s ts = filter (λ a. not (before a.timestamp ts)) s.buf

  unfoldable pub clear : Store F → Store F
  clear s = record s { buf = [] }

  unfoldable pub add_all : Store F → List (Alert F) → Store F
  add_all s [] = s
  add_all s (a ∷ alerts) = add_all (add s a) alerts
