-- ===== src/Ingest/Listen.antt =====
-- internal/ingest/syslog.go, tcpstream.go and kafka.go: the starts of the inputs and the loops that
-- accept connections. What the calls of net give is an argument.
use rfguard.Common.Tests.{
  ◌≡◌, refl, ap, Bool, true, false, not, arith, List, [], ◌∷◌, ◌++◌, if◌then◌else◌,
}
use rfguard.Config.{TcpStreamConfig, KafkaConfig}
use rfguard.Normalize.{Times}
use rfguard.Ingest.Fields.{Json}
use rfguard.Ingest.Lines.{Input, Packet, Message, listen_udp, consume_kafka}

-- What `Accept` gives: the error of a closed listener, another error, or a connection.
pub data Accept (Conn : Type 0) : Type 0 where
  closed accept_failed : Accept Conn
  accepted : Conn → Accept Conn

module _ {Conn : Type 0} where
  -- The loop over `Accept`: the connections for which it starts a handler. Only a closed listener ends
  -- it.
  unfoldable pub accept_loop : List (Accept Conn) → List Conn
  accept_loop [] = []
  accept_loop (closed ∷ accepts) = []
  accept_loop (accept_failed ∷ accepts) = accept_loop accepts
  accept_loop (accepted conn ∷ accepts) = conn ∷ accept_loop accepts

  -- `listenTCP`, where `listens` says whether `net.Listen` succeeds.
  unfoldable pub listen_tcp : Bool → List (Accept Conn) → List Conn
  unfolding accept_loop
  listen_tcp listens accepts = if listens then accept_loop accepts else []

  unfoldable pub start_tcp_stream : TcpStreamConfig → Bool → List (Accept Conn) → List Conn
  unfolding accept_loop
  start_tcp_stream current listens accepts =
      if not current.enabled then [] else if not listens then [] else accept_loop accepts

module _ {Value Location : Type 0} (json : Json Value) (times : Times Location) where
  -- `listenUDP`: the address is resolved, the socket is opened, and the loop runs.
  unfoldable pub start_udp : Bool → Bool → Input → List Packet → Input
  unfolding listen_udp
  start_udp resolves listens input packets =
      let read = listen_udp json times input packets in
      if not resolves then input else if not listens then input else read

  unfoldable pub start_kafka : KafkaConfig → Input → List Message → Input
  unfolding consume_kafka
  start_kafka current input messages =
      let read = consume_kafka json times input messages in
      if not current.enabled then input else read

-- The connections among what `Accept` gives.
abbrev pub connections : {Conn : Type 0} → List (Accept Conn) → List Conn
connections [] = []
connections (closed ∷ accepts) = connections accepts
connections (accept_failed ∷ accepts) = connections accepts
connections (accepted conn ∷ accepts) = conn ∷ connections accepts

-- Nothing among these ends the loop.
abbrev pub no_closed : {Conn : Type 0} → List (Accept Conn) → Bool
no_closed [] = true
no_closed (closed ∷ accepts) = false
no_closed (accept_failed ∷ accepts) = no_closed accepts
no_closed (accepted conn ∷ accepts) = no_closed accepts

module _ {Conn : Type 0} where
  -- Whatever fails to be accepted, every connection before the listener is closed gets a handler, in
  -- order, and none behind.
  accept_loop-closed :
      (before behind : List (Accept Conn))
      → no_closed before ≡ true
      → accept_loop (before ++ closed ∷ behind) ≡ connections before
  unfolding accept_loop
  accept_loop-closed [] behind h = refl
  accept_loop-closed (closed ∷ before) behind h = ground (arith, h)
  accept_loop-closed (accept_failed ∷ before) behind h = accept_loop-closed before behind h
  accept_loop-closed (accepted conn ∷ before) behind h =
      ap (◌∷◌ conn) (accept_loop-closed before behind h)
