-- ===== src/Tests/PipelineRuns.antt =====
-- Lines of two inputs and turns of the engine's loop.
use rfguard.Common.Tests.{false, if◌then◌else◌, ◌≡◌, refl, List, [], ◌∷◌, ◌++◌, arith}
use rfguard.Common.Text.{codes}
use rfguard.Common.Int.{ℤ, pos, pos_part, leb_ℤ}
use rfguard.Common.Fixed.{fixed_float}
use rfguard.Ingest.Parser.{new_parser}
use rfguard.Ingest.Lines.{syslog_source, kafka_source}
use Prim.Native.Nat.{min}
use rfguard.Common.Lists.{length}
use rfguard.Api.Server.{Request, alerts_of, atoi, or_zero}
use rfguard.Api.Handlers.{handle_alerts}
use rfguard.Alerts
use rfguard.Alerts.{effective_limit}
use rfguard.Alerts.Recent.{last_of}
use rfguard.Engine.{new_engine}
use rfguard.System.Shown.{observe_all, raised}
use rfguard.System.Pipeline.Shown.{handle_alerts-lines}
use rfguard.Tests.ServerRuns.{web}
use rfguard.System.Pipeline.{Node, Step, line, turn, run}
use rfguard.System.Pipeline.Fed.{IsFed, events_in, run-IsFed}
use rfguard.System.Pipeline.Drained.{turns, run-drains}
use rfguard.Tests.{clock, platform}
use rfguard.Tests.IngestRuns.{no_times, reading}
use rfguard.Tests.ParserRuns.{no_json}
use rfguard.Tests.SystemRuns.{start}

abbrev node : Node ℤ
node = record {
  input = record { parser = new_parser; out = record { capacity = 2; buffer = [] } };
  engine = start.engine;
}

abbrev steps : List Step
steps =
    line syslog_source (codes "uid=AA reader=r1") reading
    ∷ turn
    ∷ line kafka_source (codes "uid=AA reader=r1") reading
    ∷ []

run-IsFed_example :
    IsFed ⦃d = fixed_float⦄ clock platform node
      (run ⦃d = fixed_float⦄ no_json no_times clock platform steps node)
      (events_in no_json no_times node.input.parser steps)
run-IsFed_example =
    run-IsFed no_json no_times ⦃d = fixed_float⦄ clock platform steps node
      (refl, (refl, (refl, tt))) (ground arith)

run-drains_example :
    let m = run ⦃d = fixed_float⦄ no_json no_times clock platform (steps ++ turns 2) node in
    (m.input.out.buffer ≡ [])
    × (m.engine
        ≡ observe_all ⦃d = fixed_float⦄ clock platform
            (node.input.out.buffer ++ events_in no_json no_times node.input.parser steps)
            node.engine)
run-drains_example =
    run-drains no_json no_times ⦃d = fixed_float⦄ clock platform steps node 2
      (refl, (refl, (refl, tt))) (ground arith) (ground arith)

abbrev get_alerts : Request
get_alerts = record {
  method = codes "GET";
  path = codes "/alerts";
  limit = codes "1";
  since = [];
  body = [];
  body_fails = false;
}

handle_alerts-lines_example :
    let last =
      run ⦃d = fixed_float⦄ no_json no_times clock platform
        (steps ++ turns 2)
        (record { input = node.input; engine = start.engine }) in
    let asked = or_zero (atoi get_alerts.limit) in
    let shown = last_of (if leb_ℤ asked (pos 0) then 9 else min 9 (pos_part asked)) (
      raised ⦃d = fixed_float⦄ clock platform
        (node.input.out.buffer ++ events_in no_json no_times node.input.parser steps)
        start.engine) in
    handle_alerts web get_alerts (record start { engine = last.engine })
    ≡ alerts_of shown (length shown)
unfolding new_engine effective_limit Alerts.new_store
handle_alerts-lines_example =
    handle_alerts-lines ⦃d = fixed_float⦄ no_json no_times clock platform web get_alerts start
      node.input steps 2 (pos 9) 9 refl refl refl refl refl (ground arith)
      (refl, (refl, (refl, tt))) (ground arith) (ground arith)
