-- ===== src/Alerts/Recent.antt =====
-- The buffer holds the most recent alerts, as many as its limit allows.
use rfguard.Common.Tests.{
  ℕ, zero, suc, ◌+◌, ◌-◌, ◌≤◌, ◌<◌, ◌≡◌, refl, ap, sym, ◌∙◌, List, [], ◌∷◌, ◌++◌, arith,
  if◌then◌else◌, Bool-cases, inl, inr,
}
use Prim.Native.Nat.{min}
use mathlib.Core.Path.{subst}
use mathlib.Core.List.{append_assoc, append-nil}
use rfguard.Common.Lists.{length, drop, length-append, length-drop, drop_all}
use rfguard.Common.Int.{ℤ, pos, negsuc, pos_part, leb_ℤ, ltb_ℤ}
use rfguard.Model.{Alert}
use rfguard.Alerts.{Store, effective_limit, shift_in, clip, new_store, add, list, add_all}

-- The last `n` elements.
unfoldable pub last_of {ℓ} : {A : Type ℓ} → ℕ → List A → List A
last_of n xs = drop (length xs - n) xs

module _ {ℓ} {A : Type ℓ} where
  drop-drop : (m n : ℕ) (xs : List A) → drop m (drop n xs) ≡ drop (n + m) xs
  drop-drop m zero xs = ap (λ k. drop k xs) (omega arith)
  drop-drop m (suc n) [] = drop_all m [] (omega arith) ∙ sym (drop_all (suc n + m) [] (omega arith))
  drop-drop m (suc n) (x ∷ xs) =
      let next : suc (n + m) ≡ suc n + m = omega arith in
      drop-drop m n xs ∙ ap (λ k. drop k (x ∷ xs)) next

  last_of_all : (n : ℕ) (xs : List A) → length xs ≤ n → last_of n xs ≡ xs
  unfolding last_of
  last_of_all n xs h =
      let none_left : length xs - n ≡ 0 = omega arith in ap (λ k. drop k xs) none_left

  length-last_of : (n : ℕ) (xs : List A) → length (last_of n xs) ≡ min n (length xs)
  unfolding last_of
  length-last_of n xs = omega (arith, length-drop (length xs - n) xs)

  last_of-last_of : (m n : ℕ) (xs : List A) → last_of m (last_of n xs) ≡ last_of (min m n) xs
  last_of-last_of m n xs =
      let size = length-last_of n xs in
      let both : length xs - n + (length (last_of n xs) - m) ≡ length xs - min m n = omega arith in
      unfold last_of in
      (drop-drop (length (drop (length xs - n) xs) - m) (length xs - n) xs
        ∙ ap (λ k. drop k xs) both)

  shift_in-drop :
      (k : ℕ) (xs : List A) (a : A)
      → k < length xs
      → shift_in (drop k xs) a ≡ drop (suc k) (xs ++ a ∷ [])
  shift_in-drop k [] a h = absurd (omega arith)
  shift_in-drop zero (x ∷ xs) a h = refl
  shift_in-drop (suc k) (x ∷ xs) a h = shift_in-drop k xs a (omega arith)

-- The limit that a store keeps is positive.
pub effective_limit-pos : (limit : ℤ) → (n : ℕ) × (effective_limit limit ≡ pos n) × (0 < n)
unfolding effective_limit
effective_limit-pos (pos zero) = (1000, refl, omega arith)
effective_limit-pos (pos (suc n)) = (suc n, ground arith, omega arith)
effective_limit-pos (negsuc n) = (1000, ground arith, omega arith)

module _ {F : Type 0} where
  -- The buffer after a history.
  record Holds (history : List (Alert F)) (n : ℕ) (s : Store F) : Type 0 where
    limit : s.limit ≡ pos n
    holds : s.buf ≡ last_of n history

  length-buf :
      (history : List (Alert F)) (n : ℕ) (s : Store F)
      → Holds history n s
      → length s.buf ≡ min n (length history)
  length-buf history n s h = ap length h.holds ∙ length-last_of n history

  add-Holds :
      (history : List (Alert F)) (n : ℕ) (s : Store F) (a : Alert F)
      → 0 < n
      → Holds history n s
      → Holds (history ++ a ∷ []) n (add s a)
  unfolding add
  add-Holds history n s a pos_n h =
      let size = length-buf history n s h in
      let more = length-append history (a ∷ []) in
      elim (Bool-cases (ltb_ℤ (pos (length s.buf)) s.limit)) [
        | inl room ↦
            let short : suc (length history) ≤ n = ground (arith, room, h.limit, size) in
            rw room (record {
              limit = h.limit;
              holds =
                  ap (λ b. b ++ a ∷ []) (h.holds ∙ last_of_all n history (omega arith))
                  ∙ sym (last_of_all n (history ++ a ∷ []) (omega arith));
            })
        | inr full ↦
            let long : n ≤ length history = ground (arith, full, h.limit, size) in
            let next : suc (length history - n) ≡ length (history ++ a ∷ []) - n = omega arith in
            rw full (record {
              limit = h.limit;
              holds =
                  ap (λ b. shift_in b a) h.holds
                  ∙ unfold last_of in
                    (shift_in-drop (length history - n) history a (omega arith)
                      ∙ ap (λ k. drop k (history ++ a ∷ [])) next);
            })
      ]

  add_all-Holds :
      (history alerts : List (Alert F)) (n : ℕ) (s : Store F)
      → 0 < n
      → Holds history n s
      → Holds (history ++ alerts) n (add_all s alerts)
  unfolding add_all
  add_all-Holds history [] n s pos_n h = rw (append-nil history) h
  add_all-Holds history (a ∷ alerts) n s pos_n h =
      subst (λ l. Holds l n (add_all (add s a) alerts)) (append_assoc history (a ∷ []) alerts)
        (add_all-Holds (history ++ a ∷ []) alerts n (add s a) pos_n
          (add-Holds history n s a pos_n h))

  start-Holds :
      (limit : ℤ) (n : ℕ) → effective_limit limit ≡ pos n → Holds [] n (new_store {F = F} limit)
  unfolding new_store last_of
  start-Holds limit n e = record { limit = e; holds = sym (drop_all (0 - n) [] (omega arith)) }

  -- A store with the effective limit `n` that has been given `alerts` holds the last `n` of them, in
  -- the order in which they came.
  pub buf-add_all :
      (limit : ℤ) (n : ℕ) (alerts : List (Alert F))
      → effective_limit limit ≡ pos n
      → 0 < n
      → (add_all (new_store limit) alerts).buf ≡ last_of n alerts
  buf-add_all limit n alerts e h =
      (add_all-Holds [] alerts n (new_store limit) h (start-Holds limit n e)).holds

  -- Of a store with the effective limit `n` that has been given `alerts`, `List` returns the last:
  -- as many as are asked for, but no more than `n`, and `n` where 0 or less is asked for.
  pub list-add_all :
      (limit asked : ℤ) (n : ℕ) (alerts : List (Alert F))
      → effective_limit limit ≡ pos n
      → 0 < n
      → list (add_all (new_store limit) alerts) asked
        ≡ last_of (if leb_ℤ asked (pos 0) then n else min n (pos_part asked)) alerts
  unfolding list
  list-add_all limit asked n alerts e h =
      let held = buf-add_all limit n alerts e h in
      let size = length-last_of n alerts in
      let k = clip (length (last_of n alerts)) asked in
      let same : length alerts - min k n
          ≡ length alerts - (if leb_ℤ asked (pos 0) then n else min n (pos_part asked)) =
        ground (arith, size) in
      rw held (unfold last_of in (last_of-last_of k n alerts ∙ ap (λ i. drop i alerts) same))
