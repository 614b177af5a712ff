-- ===== src/Ingest/Lines.antt =====
-- internal/ingest/syslog.go, tcpstream.go and kafka.go: the loops over lines. The sockets, the scanner
-- and the Kafka reader are left out: a loop runs over what they give.
pub mod Delivered
pub mod Columns
use rfguard.Common.Tests.{
  ℕ, suc, Bool, true, false, not, List, [], ◌∷◌, ◌++◌, Option, none, some, map, eqb, if◌then◌else◌,
}
use rfguard.Common.Text.{Text, codes, is_empty}
use rfguard.Common.Clock.{Time}
use rfguard.Config.{ParserConfig, SyslogConfig}
use rfguard.Model.{NormalizedEvent}
use rfguard.Normalize.{EventFields, Times, normalize}
use rfguard.Ingest.Channel.{Channel, Choice, send_non_blocking}
use rfguard.Ingest.Fields.{Json}
use rfguard.Ingest.Parser.{Parser, parse_line}

-- What a loop finds around one line: the parser's configuration at that time, the two readings of the
-- clock in `Normalize`, what `select` does if the event is sent, and whether the context is done when
-- the loop asks.
pub record Reading : Type 0 where
  pub cfg : ParserConfig
  pub now : Time
  pub later : Time
  pub choice : Choice
  pub stop : Bool

-- What the loops share: the parser and the channel.
pub record Input : Type 0 where
  pub parser : Parser
  pub out : Channel NormalizedEvent

abbrev pub syslog_source : Text
syslog_source = codes "syslog"

abbrev pub tcp_stream_source : Text
tcp_stream_source = codes "tcp_stream"

abbrev pub kafka_source : Text
kafka_source = codes "kafka"

abbrev pub with_source : Text → Option NormalizedEvent → Option NormalizedEvent
with_source source none = none
with_source source (some ev) = some (record ev { source = source })

abbrev pub send_event :
    Choice → Option NormalizedEvent → Channel NormalizedEvent → Channel NormalizedEvent
send_event choice none out = out
send_event choice (some ev) out = (send_non_blocking choice ev out).1

-- `strings.Split` by line feeds.
unfoldable pub split_lines : Text → List Text
split_lines [] = [] ∷ []
split_lines (c ∷ s) = elim (split_lines s) [
  | [] ↦ (c ∷ []) ∷ []
  | line ∷ lines ↦ if eqb c 0x0a then [] ∷ line ∷ lines else (c ∷ line) ∷ lines
]

-- The readings for some lines, from the first on.
unfoldable pub read_at : (ℕ → Reading) → ℕ → List Text → List (Text × Reading)
read_at readings n [] = []
read_at readings n (line ∷ lines) = (line, readings n) ∷ read_at readings (suc n) lines

-- What a turn of the loop over datagrams finds: the end of the context, an error of the read, or the
-- text of a datagram.
pub data Packet : Type 0 where
  ended read_failed : Packet
  datagram : (ℕ → Reading) → Text → Packet

-- What `ReadMessage` gives: an error, which may be that of the context, or a message.
pub data Message : Type 0 where
  ended read_failed : Message
  message : Reading → Text → Message

abbrev pub is_sent : Option NormalizedEvent → Bool
is_sent none = false
is_sent (some ev) = true

module _ {Value Location : Type 0} (json : Json Value) (times : Times Location) where
  abbrev pub normalized : Text → Reading → Option EventFields → Option NormalizedEvent
  normalized source at none = none
  normalized source at (some fields) =
      with_source source (normalize times fields at.cfg at.now at.later)

  -- The event of a line, if it has one, and the parser after it.
  unfoldable pub line_event : Text → Parser → Text → Reading → Option NormalizedEvent × Parser
  unfolding parse_line normalize
  line_event source p line at =
      let parsed = parse_line json p line in (normalized source at parsed.0, parsed.1)

  unfoldable pub process_line : Text → Input → Text → Reading → Input
  unfolding line_event send_non_blocking
  process_line source input line at =
      let found = line_event source input.parser line at in
      record { parser = found.1; out = send_event at.choice found.0 input.out }

  unfoldable pub process_lines : Text → Input → List (Text × Reading) → Input
  unfolding process_line
  process_lines source input [] = input
  process_lines source input ((line, at) ∷ lines) =
      process_lines source (process_line source input line at) lines

  -- `handleTCPConn`, which asks after each line whether the context is done.
  unfoldable pub handle_tcp_conn : Input → List (Text × Reading) → Input
  unfolding process_line
  handle_tcp_conn input [] = input
  handle_tcp_conn input ((line, at) ∷ lines) =
      let next = process_line syslog_source input line at in
      let later = handle_tcp_conn next lines in if at.stop then next else later

  -- `handleTCPStreamConn`, which asks only after a line that has an event.
  unfoldable pub handle_tcp_stream_conn : Input → List (Text × Reading) → Input
  unfolding process_line line_event
  handle_tcp_stream_conn input [] = input
  handle_tcp_stream_conn input ((line, at) ∷ lines) =
      let next = process_line tcp_stream_source input line at in
      let later = handle_tcp_stream_conn next lines in
      if is_sent (line_event tcp_stream_source input.parser line at).0
      then (if at.stop then next else later)
      else later

  -- The loop of `listenUDP`.
  unfoldable pub listen_udp : Input → List Packet → Input
  unfolding process_lines split_lines read_at
  listen_udp input [] = input
  listen_udp input (ended ∷ packets) = input
  listen_udp input (read_failed ∷ packets) = listen_udp input packets
  listen_udp input (datagram readings text ∷ packets) =
      listen_udp (process_lines syslog_source input (read_at readings 0 (split_lines text))) packets

  -- The loop of `StartKafka`.
  unfoldable pub consume_kafka : Input → List Message → Input
  unfolding process_line
  consume_kafka input [] = input
  consume_kafka input (ended ∷ messages) = input
  consume_kafka input (read_failed ∷ messages) = consume_kafka input messages
  consume_kafka input (message at text ∷ messages) =
      consume_kafka (process_line kafka_source input text at) messages

-- The listeners that `StartSyslog` starts.
pub data Listener : Type 0 where
  udp tcp : Text → Listener

abbrev pub if_set : (Text → Listener) → Text → List Listener
if_set listener addr = if is_empty addr then [] else listener addr ∷ []

unfoldable pub start_syslog : SyslogConfig → List Listener
start_syslog current =
    if not current.enabled then [] else if_set udp current.udp_addr ++ if_set tcp current.tcp_addr
