-- ===== src/Ingest/Lines/Delivered.antt =====
-- What the loops put into the channel.
use rfguard.Common.Tests.{
  ◌≡◌, refl, ap, sym, ◌∙◌, Bool, true, false, List, [], ◌∷◌, ◌++◌, Option, none, some,
  if◌then◌else◌,
}
use rfguard.Common.Lists.{All}
use rfguard.Common.Text.{Text}
use rfguard.Model.{NormalizedEvent}
use rfguard.Normalize.{Times}
use rfguard.Ingest.Channel.{Channel, Choice}
use rfguard.Ingest.Channel.Filled.{filled, filled_nil, send_non_blocking_live}
use rfguard.Ingest.Fields.{Json}
use rfguard.Ingest.Parser.{Parser}
use rfguard.Ingest.Lines.{
  Reading, Input, line_event, process_line, process_lines, handle_tcp_conn, handle_tcp_stream_conn,
  send_event, syslog_source, tcp_stream_source, kafka_source, is_sent, Packet, Message, datagram,
  message, listen_udp, consume_kafka, split_lines, read_at,
}

module _ {A : Type 0} where
  if_not : {b : Bool} (x y : A) → b ≡ false → (if b then x else y) ≡ y
  if_not x y h = rw h refl

  same_if : (b : Bool) (x y : A) → x ≡ y → (if b then x else y) ≡ y
  same_if true x y h = h
  same_if false x y h = refl

-- No send finds the context done.
abbrev pub IsOpen : Text × Reading → Type 0
IsOpen (line, at) = at.choice.done ≡ false

-- No loop is told to stop, and no send finds the context done.
abbrev pub IsLive : Text × Reading → Type 0
IsLive (line, at) = (at.choice.done ≡ false) × (at.stop ≡ false)

IsLive-IsOpen : (lines : List (Text × Reading)) → All IsLive lines → All IsOpen lines
IsLive-IsOpen [] h = tt
IsLive-IsOpen ((line, at) ∷ lines) h = (h.0.0, IsLive-IsOpen lines h.1)

abbrev pub prepend : Option NormalizedEvent → List NormalizedEvent → List NormalizedEvent
prepend none events = events
prepend (some ev) events = ev ∷ events

pub filled-send_event :
    (choice : Choice) (found : Option NormalizedEvent) (events : List NormalizedEvent)
    (out : Channel NormalizedEvent)
    → choice.done ≡ false
    → filled events (send_event choice found out) ≡ filled (prepend found events) out
filled-send_event choice none events out live = refl
filled-send_event choice (some ev) events out live =
    send_non_blocking_live choice ev events out live

module _ {Value Location : Type 0} (json : Json Value) (times : Times Location) where
  -- The events of some lines, in their order, and the parser after them.
  unfoldable pub events_of : Text → Parser → List (Text × Reading) → List NormalizedEvent × Parser
  unfolding line_event
  events_of source p [] = ([], p)
  events_of source p ((line, at) ∷ lines) =
      let found = line_event json times source p line at in
      let later = events_of source found.1 lines in (prepend found.0 later.0, later.1)

  abbrev pub delivered : Text → Input → List (Text × Reading) → Input
  delivered source input lines =
      let found = events_of source input.parser lines in
      record { parser = found.1; out = filled found.0 input.out }

  process_lines-delivered :
      (source : Text) (input : Input) (lines : List (Text × Reading))
      → All IsOpen lines
      → process_lines json times source input lines ≡ delivered source input lines
  unfolding process_lines events_of process_line
  process_lines-delivered source input [] h =
      ap (λ o. record input { out = o }) (sym (filled_nil input.out))
  process_lines-delivered source input ((line, at) ∷ lines) h =
      let found = line_event json times source input.parser line at in
      let later = events_of source found.1 lines in
      process_lines-delivered source (process_line json times source input line at) lines h.1
      ∙ ap (λ o. record { parser = later.1; out = o })
          (filled-send_event at.choice found.0 later.0 input.out h.0)

  handle_tcp_conn_live :
      (input : Input) (lines : List (Text × Reading))
      → All IsLive lines
      → handle_tcp_conn json times input lines ≡ process_lines json times syslog_source input lines
  unfolding handle_tcp_conn process_lines
  handle_tcp_conn_live input [] h = refl
  handle_tcp_conn_live input ((line, at) ∷ lines) h =
      if_not _ _ h.0.1
      ∙ handle_tcp_conn_live (process_line json times syslog_source input line at) lines h.1

  handle_tcp_stream_conn_live :
      (input : Input) (lines : List (Text × Reading))
      → All IsLive lines
      → handle_tcp_stream_conn json times input lines
        ≡ process_lines json times tcp_stream_source input lines
  unfolding handle_tcp_stream_conn process_lines
  handle_tcp_stream_conn_live input [] h = refl
  handle_tcp_stream_conn_live input ((line, at) ∷ lines) h =
      same_if (is_sent (line_event json times tcp_stream_source input.parser line at).0) _ _
        (if_not _ _ h.0.1)
      ∙ handle_tcp_stream_conn_live (process_line json times tcp_stream_source input line at) lines
          h.1

  -- What a TCP connection delivers: while the context is not done, a connection of syslog and one of
  -- the stream leave the channel with its events followed by those of the lines, in their order, as
  -- many as there is room for; the rest are dropped. The parser is the one after all the lines.
  pub handle_tcp-delivered :
      (input : Input) (lines : List (Text × Reading))
      → All IsLive lines
      → (handle_tcp_conn json times input lines ≡ delivered syslog_source input lines)
        × (handle_tcp_stream_conn json times input lines ≡ delivered tcp_stream_source input lines)
  handle_tcp-delivered input lines h = (
    handle_tcp_conn_live input lines h
        ∙ process_lines-delivered syslog_source input lines (IsLive-IsOpen lines h),
    handle_tcp_stream_conn_live input lines h
        ∙ process_lines-delivered tcp_stream_source input lines (IsLive-IsOpen lines h),
  )

  -- The lines of datagrams and of messages up to the end of the context; failed reads have none.
  abbrev pub lines_of_packets : List Packet → List (Text × Reading)
  lines_of_packets [] = []
  lines_of_packets (Packet.ended ∷ packets) = []
  lines_of_packets (Packet.read_failed ∷ packets) = lines_of_packets packets
  lines_of_packets (datagram readings text ∷ packets) =
      read_at readings 0 (split_lines text) ++ lines_of_packets packets

  abbrev pub lines_of_messages : List Message → List (Text × Reading)
  lines_of_messages [] = []
  lines_of_messages (Message.ended ∷ messages) = []
  lines_of_messages (Message.read_failed ∷ messages) = lines_of_messages messages
  lines_of_messages (message at text ∷ messages) = (text, at) ∷ lines_of_messages messages

  process_lines-append :
      (source : Text) (input : Input) (lines more : List (Text × Reading))
      → process_lines json times source input (lines ++ more)
        ≡ process_lines json times source (process_lines json times source input lines) more
  unfolding process_lines
  process_lines-append source input [] more = refl
  process_lines-append source input ((line, at) ∷ lines) more =
      process_lines-append source (process_line json times source input line at) lines more

  listen_udp_lines :
      (input : Input) (packets : List Packet)
      → listen_udp json times input packets
        ≡ process_lines json times syslog_source input (lines_of_packets packets)
  unfolding listen_udp process_lines
  listen_udp_lines input [] = refl
  listen_udp_lines input (Packet.ended ∷ packets) = refl
  listen_udp_lines input (Packet.read_failed ∷ packets) = listen_udp_lines input packets
  listen_udp_lines input (datagram readings text ∷ packets) =
      let lines = read_at readings 0 (split_lines text) in
      listen_udp_lines (process_lines json times syslog_source input lines) packets
      ∙ sym (process_lines-append syslog_source input lines (lines_of_packets packets))

  consume_kafka_lines :
      (input : Input) (messages : List Message)
      → consume_kafka json times input messages
        ≡ process_lines json times kafka_source input (lines_of_messages messages)
  unfolding consume_kafka process_lines
  consume_kafka_lines input [] = refl
  consume_kafka_lines input (Message.ended ∷ messages) = refl
  consume_kafka_lines input (Message.read_failed ∷ messages) = consume_kafka_lines input messages
  consume_kafka_lines input (message at text ∷ messages) =
      consume_kafka_lines (process_line json times kafka_source input text at) messages

  -- What the loops over datagrams and over Kafka's messages deliver: the events of the lines of the
  -- datagrams, and of the messages, up to the end of the context, behind those that the channel had,
  -- in order, as many as there is room for, if no send finds the context done. A read that fails loses
  -- nothing.
  pub listen_udp-delivered :
      (input : Input) (packets : List Packet) (messages : List Message)
      → All IsOpen (lines_of_packets packets)
      → All IsOpen (lines_of_messages messages)
      → (listen_udp json times input packets
          ≡ delivered syslog_source input (lines_of_packets packets))
        × (consume_kafka json times input messages
            ≡ delivered kafka_source input (lines_of_messages messages))
  listen_udp-delivered input packets messages h k = (
    listen_udp_lines input packets
        ∙ process_lines-delivered syslog_source input (lines_of_packets packets) h,
    consume_kafka_lines input messages
        ∙ process_lines-delivered kafka_source input (lines_of_messages messages) k,
  )
