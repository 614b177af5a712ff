-- ===== src/System/Pipeline/Drained.antt =====
-- The engine's loop catches up with the inputs.

use rfguard.Common.Tests.{
  ℕ, zero, suc, ◌+◌, ◌≤◌, ◌≡◌, refl, ap, sym, ◌∙◌, List, [], ◌∷◌, ◌++◌, arith,
}
use rfguard.Common.Lists.{All, length, length-append}
use rfguard.Common.Clock.{Time}
use rfguard.Common.Float.{Float}
use rfguard.Model.{NormalizedEvent}
use rfguard.Normalize.{Times}
use rfguard.Engine.{Engine, Platform}
use rfguard.Engine.Process.{process_event}
use rfguard.Ingest.Channel.{receive}
use rfguard.Ingest.Fields.{Json}
use rfguard.Ingest.Parser.{Parser}
use rfguard.Ingest.Lines.{line_event}
use rfguard.Ingest.Lines.Delivered.{prepend}
use rfguard.System.Shown.{observe_all}
use rfguard.System.Pipeline.{Node, Step, line, turn, step, run}
use rfguard.System.Pipeline.Fed.{
  observe_all-append, IsOpenStep, arrivals, events_in, prepend-events_of, length-events_of,
  run-IsFed,
}

-- Some turns of the engine's loop, one after the other.
abbrev pub turns : ℕ → List Step
turns zero = []
turns (suc k) = turn ∷ turns k

module _ {Value Location : Type 0} (json : Json Value) (times : Times Location) where
  length-events_in :
      (p : Parser) (steps : List Step) → length (events_in json times p steps) ≤ arrivals steps
  unfolding events_in
  length-events_in p [] = ground arith
  length-events_in p (line source text at ∷ steps) =
      let found = line_event json times source p text at in
      omega (
        arith,
        ap length (prepend-events_of found.0 (events_in json times found.1 steps)),
        length-append (prepend found.0 []) (events_in json times found.1 steps),
        length-events_of found.0,
        length-events_in found.1 steps,
      )
  length-events_in p (turn ∷ steps) = length-events_in p steps

  module _ {F : Type 0} ⦃d : Float F⦄ (clock : ℕ → Time) (platform : Platform) where
    -- A node with the given parts.
    abbrev node : Parser → ℕ → List NormalizedEvent → Engine F → Node F
    node parser capacity buffer e = record {
      input = record { parser = parser; out = record { capacity = capacity; buffer = buffer } };
      engine = e;
    }

    run-turns :
        (k : ℕ) (parser : Parser) (capacity : ℕ) (buffer : List NormalizedEvent) (e : Engine F)
        → length buffer ≤ k
        → run json times clock platform (turns k) (node parser capacity buffer e)
          ≡ node parser capacity [] (observe_all clock platform buffer e)
    unfolding run step receive observe_all process_event
    run-turns zero parser capacity [] e h = refl
    run-turns zero parser capacity (ev ∷ rest) e h = ground (arith, h)
    run-turns (suc k) parser capacity [] e h = run-turns k parser capacity [] e (ground arith)
    run-turns (suc k) parser capacity (ev ∷ rest) e h =
        run-turns k parser capacity rest (process_event clock platform ev e).1 (omega (arith, h))

    run-append :
        (steps more : List Step) (n : Node F)
        → run json times clock platform (steps ++ more) n
          ≡ run json times clock platform more (run json times clock platform steps n)
    unfolding run
    run-append [] more n = refl
    run-append (s ∷ steps) more n = run-append steps more (step json times clock platform s n)

    -- Every event is observed at last: after any lines and turns in any order, in which no send finds
    -- the context done and for which the channel has room, as many further turns as events waited and
    -- lines came leave the channel empty and the engine as after every event that waited or came, in
    -- order and once each.
    pub run-drains :
        (steps : List Step) (n : Node F) (k : ℕ)
        → All IsOpenStep steps
        → length n.input.out.buffer + arrivals steps ≤ n.input.out.capacity
        → length n.input.out.buffer + arrivals steps ≤ k
        → let m = run json times clock platform (steps ++ turns k) n in
          (m.input.out.buffer ≡ [])
          × (m.engine
              ≡ observe_all clock platform
                  (n.input.out.buffer ++ events_in json times n.input.parser steps)
                  n.engine)
    run-drains steps n k h room enough =
        let events = events_in json times n.input.parser steps in
        let m = run json times clock platform steps n in
        let fed = run-IsFed json times clock platform steps n h room in
        let few : length m.input.out.buffer ≤ k = omega (
          arith,
          enough,
          ap length fed.in_order,
          length-append n.input.out.buffer events,
          length-append fed.taken m.input.out.buffer,
          length-events_in n.input.parser steps,
        ) in
        let last =
          run-append steps (turns k) n
          ∙ run-turns k m.input.parser m.input.out.capacity m.input.out.buffer m.engine few in
        (
          ap (λ x. x.input.out.buffer) last,
          ap (λ x. x.engine) last
              ∙ ap (observe_all clock platform m.input.out.buffer) fed.engine
              ∙ observe_all-append clock platform fed.taken m.input.out.buffer n.engine
              ∙ ap (λ events. observe_all clock platform events n.engine) (sym fed.in_order),
        )
