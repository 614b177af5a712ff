-- ===== src/Ingest/Channel/Queue.antt =====
-- The channel is a queue of bounded length.
use mathlib.Core.List.{append_assoc, append-nil}
use rfguard.Common.Tests.{
  ◌≤◌, ◌≡◌, refl, ap, sym, ◌∙◌, Bool, true, false, List, [], ◌∷◌, ◌++◌, arith, ◌⊎◌, suc, inl, inr,
}
use rfguard.Common.Lists.{length, length-append}
use rfguard.Ingest.Channel.{Channel, Choice, enqueue, send_non_blocking, receive}

-- What happens to a channel.
pub data Op (A : Type 0) : Type 0 where
  send : Choice → A → Op A
  take_one : Op A

-- The events that the sends of a run put into the channel, those that the engine took, and the
-- channel at the end.
pub record Run (A : Type 0) : Type 0 where
  pub accepted : List A
  pub taken : List A
  pub out : Channel A

module _ {A : Type 0} where
  abbrev kept_if : Bool → A → List A → List A
  kept_if true ev accepted = ev ∷ accepted
  kept_if false ev accepted = accepted

  unfoldable pub run : List (Op A) → Channel A → Run A
  unfolding send_non_blocking receive
  run [] out = record { accepted = []; taken = []; out = out }
  run (send choice ev ∷ ops) out =
      let sent = send_non_blocking choice ev out in
      let later = run ops sent.1 in record later { accepted = kept_if sent.0 ev later.accepted }
  run (take_one ∷ ops) out =
      let got = receive out in
      let later = run ops got.1 in record later { taken = got.0 ++ later.taken }

  -- What a run leaves, seen from the channel before it.
  pub record IsQueue (before : Channel A) (r : Run A) : Type 0 where
    pub in_order : before.buffer ++ r.accepted ≡ r.taken ++ r.out.buffer
    pub capacity : r.out.capacity ≡ before.capacity
    pub bounded : length r.out.buffer ≤ r.out.capacity

  list_cases : (xs : List A) → (xs ≡ []) ⊎ ((x : A) × (rest : List A) × xs ≡ x ∷ rest)
  list_cases [] = inl refl
  list_cases (x ∷ xs) = inr (x, xs, refl)

  send_non_blocking-cases :
      (choice : Choice) (ev : A) (out : Channel A)
      → (send_non_blocking choice ev out ≡ (false, out))
        ⊎ ((send_non_blocking choice ev out ≡ (true, enqueue ev out))
            × (suc (length out.buffer) ≤ out.capacity))
  unfolding send_non_blocking
  send_non_blocking-cases choice ev out = ground arith

  receive-cases :
      (out : Channel A)
      → (receive out ≡ ([], out))
        ⊎ ((ev : A) × (rest : List A) × (out.buffer ≡ ev ∷ rest)
            × (receive out ≡ (ev ∷ [], record out { buffer = rest })))
  unfolding receive
  receive-cases out = elim (list_cases out.buffer) [
    | inl empty ↦ inl (rw empty refl)
    | inr (ev, rest, held) ↦ inr (ev, rest, held, rw held refl)
  ]

  -- The channel is a queue: whatever is sent and taken in whatever order, the events that a run takes
  -- and those that it leaves are those that were there and those that it accepted, in their order, and
  -- the channel never holds more than its capacity.
  pub run-IsQueue :
      (ops : List (Op A)) (out : Channel A)
      → length out.buffer ≤ out.capacity
      → IsQueue out (run ops out)
  unfolding run
  run-IsQueue [] out h = record { in_order = append-nil out.buffer; capacity = refl; bounded = h }
  run-IsQueue (send choice ev ∷ ops) out h = elim (send_non_blocking-cases choice ev out) [
    | inl refused ↦ rw refused (run-IsQueue ops out h)
    | inr (sent, room) ↦
        let q =
          run-IsQueue ops (enqueue ev out)
            (omega (arith, room, length-append out.buffer (ev ∷ []))) in
        rw sent (record {
          in_order =
              sym (append_assoc out.buffer (ev ∷ []) (run ops (enqueue ev out)).accepted)
              ∙ q.in_order;
          capacity = q.capacity;
          bounded = q.bounded;
        })
  ]
  run-IsQueue (take_one ∷ ops) out h = elim (receive-cases out) [
    | inl empty ↦ rw empty (run-IsQueue ops out h)
    | inr (ev, rest, held, got) ↦
        let q = run-IsQueue ops (record out { buffer = rest }) (ground (arith, h, held)) in
        rw got (record {
          in_order =
              ap (λ b. b ++ (run ops (record out { buffer = rest })).accepted) held
              ∙ ap (◌∷◌ ev) q.in_order;
          capacity = q.capacity;
          bounded = q.bounded;
        })
  ]
