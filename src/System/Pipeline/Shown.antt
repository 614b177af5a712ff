-- ===== src/System/Pipeline/Shown.antt =====
-- From the lines of the inputs to the answer of `/alerts`.
use Prim.Native.Nat.{min}
use rfguard.Common.Tests.{ℕ, ◌+◌, ◌≤◌, ◌<◌, ◌≡◌, ap, ◌∙◌, true, List, ◌++◌, if◌then◌else◌}
use rfguard.Common.Text.{is_empty}
use rfguard.Common.Lists.{All, length}
use rfguard.Common.Int.{ℤ, pos, pos_part, leb_ℤ}
use rfguard.Common.Clock.{Time}
use rfguard.Common.Float.{Float}
use rfguard.Normalize.{Times}
use rfguard.Engine.{Platform}
use rfguard.Ingest.Fields.{Json}
use rfguard.Ingest.Lines.{Input}
use rfguard.Alerts.{new_store, effective_limit}
use rfguard.Alerts.Recent.{last_of}
use rfguard.Api.Server.{Request, Web, Server, alerts_of, is_get, atoi, or_zero}
use rfguard.Api.Handlers.{handle_alerts}
use rfguard.System.Shown.{raised, handle_alerts-raised}
use rfguard.System.Pipeline.{Step, run}
use rfguard.System.Pipeline.Fed.{IsOpenStep, arrivals, events_in}
use rfguard.System.Pipeline.Drained.{turns, run-drains}

module _ {F Value Location : Type 0} ⦃d : Float F⦄ (json : Json Value) (times : Times Location)
    (clock : ℕ → Time) (platform : Platform) where
  -- From lines to alerts: lines of any inputs come and the engine's loop takes turns, in any order, and
  -- then the loop takes as many further turns as events waited and lines came; no send finds the
  -- context done, and the channel has room. If the store of alerts was empty, then the answer to a GET
  -- of `/alerts` without `since` has the last of all the alerts that the events that waited or came
  -- raise, in order, as many as the query's limit asks for and the store's limit `n` allows; a limit
  -- that is no positive number asks for `n`.
  pub handle_alerts-lines :
      (web : Web) (r : Request) (s : Server F) (input : Input) (steps : List Step) (k : ℕ)
      (limit : ℤ) (n : ℕ)
      → is_get r ≡ true
      → is_empty r.since ≡ true
      → s.has_alerts ≡ true
      → s.engine.alerts ≡ new_store limit
      → effective_limit limit ≡ pos n
      → 0 < n
      → All IsOpenStep steps
      → length input.out.buffer + arrivals steps ≤ input.out.capacity
      → length input.out.buffer + arrivals steps ≤ k
      → let last =
          run json times clock platform
            (steps ++ turns k)
            (record { input = input; engine = s.engine }) in
        let asked = or_zero (atoi r.limit) in
        let shown = last_of (if leb_ℤ asked (pos 0) then n else min n (pos_part asked)) (
          raised clock platform
            (input.out.buffer ++ events_in json times input.parser steps)
            s.engine) in
        handle_alerts web r (record s { engine = last.engine }) ≡ alerts_of shown (length shown)
  handle_alerts-lines web r s input steps k limit n get e has fresh eff some_room live room enough =
      let drained =
        run-drains json times clock platform steps (record { input = input; engine = s.engine }) k
          live room enough in
      ap (λ e. handle_alerts web r (record s { engine = e })) drained.1
      ∙ handle_alerts-raised clock platform web r s limit n
          (input.out.buffer ++ events_in json times input.parser steps) get e has fresh eff
          some_room
