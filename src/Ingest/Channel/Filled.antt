-- ===== src/Ingest/Channel/Filled.antt =====
-- Sends to a channel that nobody takes from, while the context is not done.
use rfguard.Common.Tests.{
  ℕ, zero, suc, ◌-◌, ◌≡◌, ap, sym, ◌∙◌, true, false, List, [], ◌∷◌, ◌++◌, refl, arith, Bool-cases,
  inl, inr,
}
use mathlib.Core.List.{append_assoc, append-nil}
use rfguard.Common.Lists.{length, take, length-append}
use rfguard.Ingest.Channel.{Channel, Choice, send_non_blocking, enqueue, has_room}

-- The channel with as many of the events as it has room for.
abbrev pub filled : {A : Type 0} → List A → Channel A → Channel A
filled events out = record out {
  buffer = out.buffer ++ take (out.capacity - length out.buffer) events;
}

module _ {A : Type 0} where
  -- Without an end of the context, a send succeeds if there is room.
  pub send_non_blocking_room :
      (choice : Choice) (ev : A) (out : Channel A)
      → choice.done ≡ false
      → has_room out ≡ true
      → send_non_blocking choice ev out ≡ (true, enqueue ev out)
  unfolding send_non_blocking
  send_non_blocking_room choice ev out live room = ground (arith, live, room)

  send_non_blocking_full :
      (choice : Choice) (ev : A) (out : Channel A)
      → has_room out ≡ false
      → send_non_blocking choice ev out ≡ (false, out)
  unfolding send_non_blocking
  send_non_blocking_full choice ev out full = ground (arith, full)

  filled-enqueue :
      (ev : A) (events : List A) (out : Channel A)
      → has_room out ≡ true
      → filled events (enqueue ev out) ≡ filled (ev ∷ events) out
  filled-enqueue ev events out room =
      let left : out.capacity - length out.buffer
          ≡ suc (out.capacity - length (out.buffer ++ (ev ∷ []))) =
        ground (arith, room, length-append out.buffer (ev ∷ [])) in
      let n = out.capacity - length (out.buffer ++ (ev ∷ [])) in
      ap (λ b. record out { buffer = b })
        (append_assoc out.buffer (ev ∷ []) (take n events)
          ∙ ap (λ k. out.buffer ++ take k (ev ∷ events)) (sym left))

  take_nil : (n : ℕ) → take {A = A} n [] ≡ []
  take_nil zero = refl
  take_nil (suc n) = refl

  pub filled_nil : (out : Channel A) → filled [] out ≡ out
  filled_nil out =
      ap (λ b. record out { buffer = b })
        (ap (λ t. out.buffer ++ t) (take_nil (out.capacity - length out.buffer))
          ∙ append-nil out.buffer)

  filled_full : (events : List A) (out : Channel A) → has_room out ≡ false → filled events out ≡ out
  filled_full events out full =
      let none_left : out.capacity - length out.buffer ≡ 0 = ground (arith, full) in
      rw none_left (ap (λ b. record out { buffer = b }) (append-nil out.buffer))

  pub send_non_blocking_live :
      (choice : Choice) (ev : A) (events : List A) (out : Channel A)
      → choice.done ≡ false
      → filled events (send_non_blocking choice ev out).1 ≡ filled (ev ∷ events) out
  send_non_blocking_live choice ev events out live = elim (Bool-cases (has_room out)) [
    | inl room ↦
        ap (λ r. filled events r.1) (send_non_blocking_room choice ev out live room)
        ∙ filled-enqueue ev events out room
    | inr full ↦
        ap (λ r. filled events r.1) (send_non_blocking_full choice ev out full)
        ∙ filled_full events out full
        ∙ sym (filled_full (ev ∷ events) out full)
  ]
