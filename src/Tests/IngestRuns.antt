-- ===== src/Tests/IngestRuns.antt =====
-- The channel, the loops over lines, the REST handler and the followed file on small inputs.
use rfguard.Common.Tests.{
  ℕ, ◌≡◌, ◌≢◌, refl, true, false, List, [], ◌∷◌, ◌++◌, none, some, arith, eqb, ltb, if◌then◌else◌,
  ◌+◌,
}
use rfguard.Common.Lists.{length}
use rfguard.Common.Text.{Text, codes}
use rfguard.Config.{ParserConfig}
use rfguard.Model.{NormalizedEvent}
use rfguard.Normalize.{Times}
use rfguard.Ingest.Channel.{Channel, Choice}
use rfguard.Ingest.Channel.Queue.{Op, send, take_one, run, IsQueue, run-IsQueue}
use rfguard.Ingest.Parser.{new_parser}
use rfguard.Ingest.Lines.{
  Packet, Message, datagram, message, listen_udp, consume_kafka, split_lines, read_at, kafka_source,
  Reading, Input, handle_tcp_conn, handle_tcp_stream_conn, process_lines, syslog_source,
  tcp_stream_source,
}
use rfguard.Ingest.Lines.Delivered.{
  delivered, handle_tcp-delivered, listen_udp-delivered, lines_of_packets, lines_of_messages,
}
use rfguard.Ingest.Rest.{Request, Instants, handle_events}
use rfguard.Ingest.Rest.Counted.{RequestEnd, handle_events-RequestEnd}
use rfguard.Ingest.Tail.{World, Tail, tail_file, file_tail_source, size}
use rfguard.Ingest.Tail.Turns.{calm, turns_of, full_lines, text_of}
use rfguard.Ingest.Tail.Whole.{tail_file_round}
use rfguard.Tests.{millis}
use rfguard.Tests.ParserRuns.{no_json}

-- A clock without zones that knows no layout.
abbrev pub no_times : Times Text
no_times = record {
  utc = codes "UTC";
  load_location = λ name. none;
  parse = λ layout value. none;
  parse_in_location = λ layout value loc. none;
  with_year = λ now t loc. t;
}

abbrev parser : ParserConfig
parser = record { timezone = codes "UTC"; default_reader_id = codes "unknown" }

abbrev pub live : Choice
live = record { done = false; prefers_send = false }

abbrev pub reading : Reading
reading = record { cfg = parser; now = millis 0; later = millis 1; choice = live; stop = false }

abbrev out : Channel NormalizedEvent
out = record { capacity = 1; buffer = [] }

abbrev input : Input
input = record { parser = new_parser; out = out }

abbrev pub lines : List (Text × Reading)
lines = (codes "uid=AA reader=r1", reading) ∷ (codes "uid=BB reader=r1", reading) ∷ []

-- A full channel refuses the second event, and takes another once the engine has taken one.
abbrev ops : List (Op ℕ)
ops = send live 1 ∷ send live 2 ∷ take_one ∷ send live 3 ∷ []

run-IsQueue_example :
    IsQueue (record { capacity = 1; buffer = [] }) (run ops (record { capacity = 1; buffer = [] }))
run-IsQueue_example = run-IsQueue ops (record { capacity = 1; buffer = [] }) (omega arith)

handle_tcp-delivered_example :
    (handle_tcp_conn no_json no_times input lines
      ≡ delivered no_json no_times syslog_source input lines)
    × (handle_tcp_stream_conn no_json no_times input lines
        ≡ delivered no_json no_times tcp_stream_source input lines)
handle_tcp-delivered_example =
    handle_tcp-delivered no_json no_times input lines ((refl, refl), ((refl, refl), tt))

-- A datagram of two lines behind a read that failed, and one behind the end of the context.
abbrev packets : List Packet
packets =
    Packet.read_failed
    ∷ datagram (λ n. reading) (codes "uid=AA\nuid=BB")
    ∷ Packet.ended
    ∷ datagram (λ n. reading) (codes "uid=CC")
    ∷ []

abbrev messages : List Message
messages = message reading (codes "uid=DD") ∷ Message.read_failed ∷ []

listen_udp-delivered_example :
    (listen_udp no_json no_times input packets
      ≡ delivered no_json no_times syslog_source input (lines_of_packets no_json no_times packets))
    × (consume_kafka no_json no_times input messages
        ≡ delivered no_json no_times kafka_source input
            (lines_of_messages no_json no_times messages))
unfolding split_lines read_at
listen_udp-delivered_example =
    listen_udp-delivered no_json no_times input packets messages (refl, (refl, tt)) (refl, tt)

abbrev request : Request
request = record { method = codes "POST"; body = some (codes " [{}]") }

abbrev instants : ℕ → Instants
instants n = record { now = millis n; later = millis n }

handle_events-RequestEnd_example :
    RequestEnd no_json no_times parser request instants out
      (handle_events no_json no_times parser request instants out)
handle_events-RequestEnd_example =
    handle_events-RequestEnd no_json no_times parser request instants out

abbrev tailed : List (Text × Reading)
tailed = (codes "uid=A", reading) ∷ (codes "uid=B", reading) ∷ []

abbrev world : World
world = record { at_path = some 0; content = λ n. text_of tailed }

-- A tail that was closed since its file, of which 40 bytes had been read, got shorter.
abbrev closed : Tail
closed = record { file = none; offset = 40; input = input; ended = false }

not_newline : (c : ℕ) → eqb c 0x0a ≡ false → c ≢ 0x0a
not_newline c h e = ground (arith, h, e)

tail_file_round_example :
    let turns = ((world, calm reading) ∷ turns_of world tailed) ++ ((world, calm reading) ∷ []) in
    (tail_file no_json no_times false turns closed ≡ record closed {
      file = if ltb 0 closed.offset then none else some (0, length (world.content 0));
      offset = closed.offset + size (world.content 0);
      input = process_lines no_json no_times file_tail_source closed.input (full_lines tailed);
    })
    × (tail_file no_json no_times true turns closed ≡ record closed {
      file = some (0, length (world.content 0));
      offset = size (world.content 0);
    })
tail_file_round_example =
    let ok : (c : ℕ) → eqb c 0x0a ≡ false → c ≢ 0x0a = not_newline in
    tail_file_round no_json no_times world 0 tailed reading reading closed
      (
        (ok 117 refl, (ok 105 refl, (ok 100 refl, (ok 61 refl, (ok 65 refl, tt))))),
        ((ok 117 refl, (ok 105 refl, (ok 100 refl, (ok 61 refl, (ok 66 refl, tt))))), tt),
      )
      refl refl refl refl
