-- ===== src/System/Pipeline.antt =====
-- The inputs, the channel and the engine together: internal/ingest with `Start` of
-- internal/engine/engine.go. A step is a line that an input processes, or a turn of the engine's
-- loop, in any order.
pub mod Fed
pub mod Drained
pub mod Shown
use rfguard.Common.Tests.{ℕ, List, [], ◌∷◌}
use rfguard.Common.Text.{Text}
use rfguard.Common.Clock.{Time}
use rfguard.Common.Float.{Float}
use rfguard.Model.{NormalizedEvent}
use rfguard.Normalize.{Times}
use rfguard.Engine.{Engine, Platform}
use rfguard.Engine.Process.{process_event}
use rfguard.Ingest.Channel.{Channel, receive}
use rfguard.Ingest.Fields.{Json}
use rfguard.Ingest.Lines.{Reading, Input, process_line}
use rfguard.System.Shown.{observe_all}

-- What the inputs share, and the engine at the other end of the channel.
pub record Node (F : Type 0) : Type 0 where
  pub input : Input
  pub engine : Engine F

-- A line of an input of the named source, or a turn of the loop in `Start`.
pub data Step : Type 0 where
  line : Text → Text → Reading → Step
  turn : Step

module _ {F Value Location : Type 0} ⦃d : Float F⦄ (json : Json Value) (times : Times Location)
    (clock : ℕ → Time) (platform : Platform) where
  -- A turn takes the event that has waited longest, if there is one.
  abbrev pub engine_turn : Node F → Node F
  engine_turn n =
      let got = receive n.input.out in
      record {
        input = record n.input { out = got.1 };
        engine = observe_all clock platform got.0 n.engine;
      }

  unfoldable pub step : Step → Node F → Node F
  unfolding process_line receive process_event observe_all
  step (line source text at) n = record n { input = process_line json times source n.input text at }
  step turn n = engine_turn n

  unfoldable pub run : List Step → Node F → Node F
  unfolding step
  run [] n = n
  run (s ∷ steps) n = run steps (step s n)
