-- ===== src/System/Pipeline/Fed.antt =====
-- No event is lost between the inputs and the engine while the channel has room.
use mathlib.Core.List.{append_assoc, append-nil}
use rfguard.Common.Tests.{
  ℕ, suc, ◌+◌, ◌≤◌, ◌<◌, ◌≡◌, refl, ap, sym, ◌∙◌, true, false, List, [], ◌∷◌, ◌++◌, Option, none,
  some, arith,
}
use rfguard.Common.Lists.{All, length, length-append}
use rfguard.Common.Clock.{Time}
use rfguard.Common.Float.{Float}
use rfguard.Model.{NormalizedEvent}
use rfguard.Normalize.{Times}
use rfguard.Engine.{Engine, Platform}
use rfguard.Engine.Process.{process_event}
use rfguard.Ingest.Channel.{Channel, Choice, receive}
use rfguard.Ingest.Channel.Filled.{send_non_blocking_room}
use rfguard.Ingest.Fields.{Json}
use rfguard.Ingest.Parser.{Parser}
use rfguard.Ingest.Lines.{line_event, process_line, send_event}
use rfguard.Ingest.Lines.Delivered.{prepend}
use rfguard.System.Shown.{observe_all}
use rfguard.System.Pipeline.{Node, Step, line, turn, step, run}

-- The send of a step does not find the context done.
abbrev pub IsOpenStep : Step → Type 0
IsOpenStep (line source text at) = at.choice.done ≡ false
IsOpenStep turn = true ≡ true

-- How many lines arrive.
abbrev pub arrivals : List Step → ℕ
arrivals [] = 0
arrivals (line source text at ∷ steps) = suc (arrivals steps)
arrivals (turn ∷ steps) = arrivals steps

-- A run from `n` to `m` on lines with the given events: the engine has observed the first of the
-- events that waited or came, in order and once each, and the others wait.
pub record IsFed {F : Type 0} ⦃d : Float F⦄ (clock : ℕ → Time) (platform : Platform) (n m : Node F)
    (events : List NormalizedEvent) : Type 0 where
  pub taken : List NormalizedEvent
  pub in_order : n.input.out.buffer ++ events ≡ taken ++ m.input.out.buffer
  pub engine : m.engine ≡ observe_all clock platform taken n.engine

abbrev pub events_of : Option NormalizedEvent → List NormalizedEvent
events_of found = prepend found []

pub prepend-events_of :
    (found : Option NormalizedEvent) (events : List NormalizedEvent)
    → prepend found events ≡ events_of found ++ events
prepend-events_of none events = refl
prepend-events_of (some ev) events = refl

pub length-events_of : (found : Option NormalizedEvent) → length (events_of found) ≤ 1
length-events_of none = ground arith
length-events_of (some ev) = ground arith

send_event_room :
    (choice : Choice) (found : Option NormalizedEvent) (out : Channel NormalizedEvent)
    → choice.done ≡ false
    → length out.buffer < out.capacity
    → send_event choice found out ≡ record out { buffer = out.buffer ++ events_of found }
send_event_room choice none out live room =
    sym (ap (λ b. record out { buffer = b }) (append-nil out.buffer))
send_event_room choice (some ev) out live room =
    ap (λ r. r.1) (send_non_blocking_room choice ev out live (ground (arith, room)))

receive-parts :
    (capacity : ℕ) (buffer : List NormalizedEvent)
    → let got = receive (record { capacity = capacity; buffer = buffer }) in
      (buffer ≡ got.0 ++ got.1.buffer) × (got.1.capacity ≡ capacity)
unfolding receive
receive-parts capacity [] = (refl, refl)
receive-parts capacity (ev ∷ rest) = (refl, refl)

module _ {F : Type 0} ⦃d : Float F⦄ (clock : ℕ → Time) (platform : Platform) where
  pub observe_all-append :
      (xs ys : List NormalizedEvent) (e : Engine F)
      → observe_all clock platform ys (observe_all clock platform xs e)
        ≡ observe_all clock platform (xs ++ ys) e
  unfolding observe_all process_event
  observe_all-append [] ys e = refl
  observe_all-append (x ∷ xs) ys e = observe_all-append xs ys (process_event clock platform x e).1

module _ {Value Location : Type 0} (json : Json Value) (times : Times Location) where
  -- The events of the lines that arrive, in their order.
  unfoldable pub events_in : Parser → List Step → List NormalizedEvent
  unfolding line_event
  events_in p [] = []
  events_in p (line source text at ∷ steps) =
      let found = line_event json times source p text at in
      prepend found.0 (events_in found.1 steps)
  events_in p (turn ∷ steps) = events_in p steps

  module _ {F : Type 0} ⦃d : Float F⦄ (clock : ℕ → Time) (platform : Platform) where
    -- Nothing is lost on the way from the lines to the engine: after any lines of any inputs and any
    -- turns of the engine's loop, in any order, the engine has observed the first of the events that
    -- waited or came with these lines, in order and once each, and all the others wait in the channel,
    -- if no send finds the context done and the channel has room for as many more as lines arrive.
    pub run-IsFed :
        (steps : List Step) (n : Node F)
        → All IsOpenStep steps
        → length n.input.out.buffer + arrivals steps ≤ n.input.out.capacity
        → IsFed clock platform n
            (run json times clock platform steps n)
            (events_in n.input.parser steps)
    unfolding run events_in step process_line observe_all
    run-IsFed [] n h room = record {
      taken = [];
      in_order = append-nil n.input.out.buffer;
      engine = refl;
    }
    run-IsFed (line source text at ∷ steps) n h room =
        let found = line_event json times source n.input.parser text at in
        let out = n.input.out in
        let sent = send_event_room at.choice found.0 out h.0 (omega (arith, room)) in
        let later = run-IsFed steps (step json times clock platform (line source text at) n) h.1 (
          rw sent (
            omega (
              arith,
              room,
              length-append out.buffer (events_of found.0),
              length-events_of found.0,
            ))) in
        record {
          taken = later.taken;
          in_order =
              ap (λ t. out.buffer ++ t) (prepend-events_of found.0 (events_in found.1 steps))
              ∙ sym (append_assoc out.buffer (events_of found.0) (events_in found.1 steps))
              ∙ ap (λ o. o.buffer ++ events_in found.1 steps) (sym sent)
              ∙ later.in_order;
          engine = later.engine;
        }
    run-IsFed (turn ∷ steps) n h room =
        let out = n.input.out in
        let got = receive out in
        let parts = receive-parts out.capacity out.buffer in
        let later =
          run-IsFed steps (step json times clock platform turn n) h.1
            (omega (arith, room, ap length parts.0, length-append got.0 got.1.buffer, parts.1)) in
        record {
          taken = got.0 ++ later.taken;
          in_order =
              ap (λ b. b ++ events_in n.input.parser steps) parts.0
              ∙ append_assoc got.0 got.1.buffer (events_in n.input.parser steps)
              ∙ ap (λ t. got.0 ++ t) later.in_order
              ∙ sym (
                  append_assoc got.0 later.taken
                    (run json times clock platform steps
                      (step json times clock platform turn n)).input.out.buffer);
          engine = later.engine ∙ observe_all-append clock platform got.0 later.taken n.engine;
        }
