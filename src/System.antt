-- ===== src/System.antt =====
-- The program as a system: internal/engine/engine.go and internal/api/server.go on the state that they
-- share. A step is an event that the engine's loop takes, or a request to the API, in any order; the
-- handlers and `ProcessEvent` are atomic steps.
pub mod InStep
pub mod Judged
pub mod Pipeline
pub mod Shown
use rfguard.Common.Tests.{ℕ}
use rfguard.Common.Clock.{Time}
use rfguard.Common.Float.{Float}
use rfguard.Model.{NormalizedEvent}
use rfguard.Config.Load.{Codec}
use rfguard.Config.Manager.{Write}
use rfguard.Engine.{Platform}
use rfguard.Engine.Process.{process_event}
use rfguard.Api.Server.{Request, Web, Server}
use rfguard.Api.Handlers.{serve}

module _ {F : Type 0} ⦃d : Float F⦄ (codec : Codec F) (write : Write) (web : Web) (clock : ℕ → Time)
    (platform : Platform) where
  -- An event that the engine's loop takes.
  abbrev pub observe : NormalizedEvent → Server F → Server F
  observe ev s = record s { engine = (process_event clock platform ev s.engine).1 }

  -- The states that the program can be in, from the one in which it started.
  pub data Reached (start : Server F) : Server F → Type 0 where
    started : Reached start start
    asked :
        (now : Time) (r : Request) (s : Server F)
        → Reached start s
        → Reached start (serve web codec write now r s).1
    observed :
        (ev : NormalizedEvent) (s : Server F) → Reached start s → Reached start (observe ev s)
