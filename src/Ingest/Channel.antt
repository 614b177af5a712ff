-- ===== src/Ingest/Channel.antt =====
-- internal/ingest/ingest.go: the channel between the inputs and the engine, which refuses what it has
-- no room for.
pub mod Queue
pub mod Filled
use rfguard.Common.Tests.{ℕ, Bool, true, false, ◌&&◌, not, List, [], ◌∷◌, ◌++◌, ltb, if◌then◌else◌}
use rfguard.Common.Lists.{length}
use rfguard.Common.Int.{ℤ, pos, leb_ℤ}
use rfguard.Common.Clock.{Duration}

pub record Channel (A : Type 0) : Type 0 where
  pub capacity : ℕ
  pub buffer : List A

-- What `select` finds: whether the context is done, and which of two ready cases it takes.
pub record Choice : Type 0 where
  pub done : Bool
  pub prefers_send : Bool

module _ {A : Type 0} where
  abbrev pub has_room : Channel A → Bool
  has_room out = ltb (length out.buffer) out.capacity

  abbrev pub enqueue : A → Channel A → Channel A
  enqueue ev out = record out { buffer = out.buffer ++ ev ∷ [] }

  -- `SendNonBlocking`: of two cases that are ready, `select` may take either.
  unfoldable pub send_non_blocking : Choice → A → Channel A → Bool × Channel A
  send_non_blocking choice ev out =
      if has_room out
      then (if choice.done && not choice.prefers_send then (false, out) else (true, enqueue ev out))
      else (false, out)

  -- What the engine takes, if there is anything.
  unfoldable pub receive : Channel A → List A × Channel A
  receive out = elim out.buffer [
    | [] ↦ ([], out)
    | ev ∷ rest ↦ (ev ∷ [], record out { buffer = rest })
  ]

-- `BackoffSleep`: how long it waits, and whether the timer or the end of the context comes first.
unfoldable pub backoff_sleep : (Duration → Bool) → Duration → Bool
backoff_sleep timer_first d = timer_first (if leb_ℤ d (pos 0) then pos 200_000_000 else d)
