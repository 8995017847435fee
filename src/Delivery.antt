-- ===== src/Delivery.antt =====
-- A data message on its way through a circuit: one node after the other reads it from a stream with the loop
-- of network/relay_event_handler.rs, passes it on with forward_relay of network/utils.rs, and the
-- node at the end gives it to its circuit.
use mathlib.Core.Option
use white_noise_rs.Prelude.{
  length, ◌<◌, ◌≤◌, ◌+◌, ◌*◌, ◌/◌, subst, sym, ℕ, String, ◌≡◌, refl, true, false, Option, none,
  some, List, [], ◌∷◌, All, ◌==◌, ◌⊎◌, inl, inr, string_eq, ℕ_eq, arith, ◌∙◌,
}
use white_noise_rs.HashMap.{get}
use white_noise_rs.Proto.{
  Relay, RelayMsg, relaytype_i32, relay_data, wake, acked, probe, disconnected, set_session_id,
  success,
}
use white_noise_rs.Host.{Host}
use white_noise_rs.State.{WrappedStream, Session, CircuitConn, ready}
use white_noise_rs.Task.{
  Effect, Input, World, done, stream_write, circuit_send, elapsed, pure, ◌>>=◌,
}
use white_noise_rs.Swarm.Polling.{delivered, delivered-within}
use white_noise_rs.Utils.Sending.{
  sent, padded, length-padded, forward_relay_from_early, forward_relay_from_later,
}
use white_noise_rs.Utils.Forward.{forward_relay}
use white_noise_rs.Utils.Ids.{from_bytes_get_id}
use white_noise_rs.Utils.Write.{with_id}
use white_noise_rs.RelayEvents.{go_on, on_relay}
use white_noise_rs.RelayEvents.Circuits.{handle_relay_msg}
use white_noise_rs.RelayEvents.Delivery.{is_end, handle_relay_msg_delivers}

-- A node between the ends, and the stream that it reads the message from.
pub record Hop : Type 0 where
  pub world : World
  pub stream : WrappedStream

-- The bytes that the node has written last.
abbrev pub newest_write : List Effect → Option (List ℕ)
newest_write (stream_write stream bytes ∷ out) = some bytes
newest_write _ = none

module _ (host : Host) (id : String) where
  -- What the next reader makes of the bytes that are written: a message above the limit is an error.
  abbrev pub read_next : List ℕ → Option Relay
  read_next bytes = Option.bind (delivered bytes) host.relay.decode

  -- The message that comes out of the last of the nodes.
  unfoldable pub carry : List Hop → Relay → Option Relay
  carry [] relay = some relay
  carry (hop ∷ hops) relay =
      Option.bind
        (Option.bind (newest_write (on_relay host hop.stream (some id) relay hop.world).1.out)
          read_next)
        (carry hops)

  -- The two places of the stream in the session, and what it takes for the node to pass a message on.
  pub record IsBetween (hop : Hop) : Type 0 where
    pub session : Session
    pub early : WrappedStream
    pub later : WrappedStream
    pub tick : Input
    pub rest : List Input
    pub open_session : get hop.world.shared.session_map id ≡ some session
    pub has_early : session.early_stream ≡ some early
    pub has_later : session.later_stream ≡ some later
    pub distinct : (early.stream_id == later.stream_id) ≡ false
    pub between : is_end session ≡ false
    pub place : (hop.stream ≡ early) ⊎ (hop.stream ≡ later)
    pub next : hop.world.inputs ≡ tick ∷ rest
    pub ticks : tick.answer ≡ elapsed

  -- How much longer than its payload and its padding a message with its id may be, when it is encoded;
  -- it is never empty.
  abbrev pub Overhead : ℕ → Type 0
  Overhead overhead =
      (relay : Relay)
      → let size = length (host.relay.encode (with_id host relay)) in
        (0 < size) × (size ≤ length relay.payload + length relay.confusion + overhead)

  -- A message with that payload is within the limit of a read, whatever its padding.
  abbrev pub Passable : ℕ → List ℕ → Type 0
  Passable overhead payload = length payload + (length payload * 10 / 100 + 10) + overhead ≤ 4096

  -- What the codec has to keep of a message.
  abbrev pub KeepsPayload : Type 0
  KeepsPayload =
      (relay : Relay)
      → (read : Relay) × (host.relay.decode (host.relay.encode relay) ≡ some read)
        × (read.type ≡ relay.type)
        × (read.payload ≡ relay.payload)

  -- The next reader gets it.
  pub passes :
      (w : World) (relay : Relay) (overhead : ℕ)
      → Overhead overhead
      → Passable overhead relay.payload
      → delivered (host.relay.encode (with_id host (padded w relay)))
        ≡ some (host.relay.encode (with_id host (padded w relay)))
  passes w relay overhead over fits =
      let size = over (padded w relay) in
      delivered-within (host.relay.encode (with_id host (padded w relay))) size.0
        (omega (arith, size.1, length-padded w relay))

  module _ (msg : RelayMsg) (session_id : msg.session_id ≡ id) where
    abbrev IsData : Relay → Type 0
    IsData relay =
        (relay.type ≡ relaytype_i32 relay_data) × (host.relay_msg.decode relay.payload ≡ some msg)

    forwards :
        (hop : Hop) (relay : Relay) (b : IsBetween hop)
        → (to : WrappedStream) × (forward_relay host b.session hop.stream.stream_id relay hop.world
            ≡ (done tt, sent host to relay b.tick b.rest hop.world))
    forwards hop relay b = elim b.place [
      | inl e ↦ (
        b.later,
        rw e (
            forward_relay_from_early host b.session b.early b.later relay hop.world b.tick b.rest
              b.has_early b.has_later b.distinct b.next b.ticks),
      )
      | inr e ↦ (
        b.early,
        rw e (
            forward_relay_from_later host b.session b.early b.later relay hop.world b.tick b.rest
              b.has_early b.has_later b.distinct b.next b.ticks),
      )
    ]

    handles :
        (hop : Hop) (relay : Relay) (b : IsBetween hop)
        → IsData relay
        → handle_relay_msg host relay hop.stream hop.world
          ≡ forward_relay host b.session hop.stream.stream_id relay hop.world
    handles hop relay b d =
        let full : ready b.session ≡ true = unfold ready in rw (b.has_early, b.has_later) refl in
        let found : get hop.world.shared.session_map msg.session_id ≡ some b.session =
          rw session_id b.open_session in
        handle_relay_msg_delivers host relay msg hop.stream hop.world d.1 (some b.session) found
        ∙ rw (b.between, full) refl

    data_handled :
        (stream : WrappedStream) (relay : Relay) (w : World)
        → relay.type ≡ relaytype_i32 relay_data
        → on_relay host stream (some id) relay w
          ≡ (handle_relay_msg host relay stream >>= (λ _. pure (go_on (some id)))) w
    unfolding on_relay
    data_handled stream relay w e =
        let not_wake : (relay.type == relaytype_i32 wake) ≡ false = ground arith in
        let not_acked : (relay.type == relaytype_i32 acked) ≡ false = ground arith in
        let not_probe : (relay.type == relaytype_i32 probe) ≡ false = ground arith in
        let not_disconnected : (relay.type == relaytype_i32 disconnected) ≡ false = ground arith in
        let not_set : (relay.type == relaytype_i32 set_session_id) ≡ false = ground arith in
        let not_success : (relay.type == relaytype_i32 success) ≡ false = ground arith in
        let is_data : (relay.type == relaytype_i32 relay_data) ≡ true = ground arith in
        rw (not_wake, not_acked, not_probe, not_disconnected, not_set, not_success, is_data) refl

    hop-writes :
        (hop : Hop) (relay : Relay)
        → IsBetween hop
        → IsData relay
        → newest_write (on_relay host hop.stream (some id) relay hop.world).1.out
          ≡ some (host.relay.encode (with_id host (padded hop.world relay)))
    unfolding ◌>>=◌
    hop-writes hop relay b d =
        rw (data_handled hop.stream relay hop.world d.0)
          (rw (handles hop relay b d ∙ (forwards hop relay b).1, ◌>>=◌) refl)

    pub carry_delivers :
        (hops : List Hop) (relay : Relay) (end_stream : WrappedStream) (last : World)
        (session : Session) (conn : CircuitConn) (overhead : ℕ)
        → KeepsPayload
        → Overhead overhead
        → Passable overhead relay.payload
        → All IsBetween hops
        → IsData relay
        → get last.shared.session_map id ≡ some session
        → is_end session ≡ true
        → get last.shared.circuit_map id ≡ some conn
        → (arrived : Relay) × (carry hops relay ≡ some arrived)
          × (arrived.payload ≡ relay.payload)
          × (handle_relay_msg host arrived end_stream last
              ≡ (done tt, record last { out = circuit_send conn.channel msg.payload ∷ last.out }))
    unfolding carry Option.bind from_bytes_get_id
    carry_delivers [] relay end_stream last session conn overhead keeps over fits bs d found ends
          circuit =
        (
          relay,
          refl,
          refl,
          handle_relay_msg_delivers host relay msg end_stream last d.1 (some session)
                (rw session_id found)
              ∙ rw (ends, session_id, circuit) refl,
        )
    carry_delivers (hop ∷ hops) relay end_stream last session conn overhead keeps over fits bs d
          found ends circuit =
        let m = with_id host (padded hop.world relay) in
        let read = keeps m in
        let d' : IsData read.0 = (read.2 ∙ d.0, rw read.3 d.1) in
        let r =
          carry_delivers hops read.0 end_stream last session conn overhead keeps over
            (subst (Passable overhead) (sym read.3) fits) bs.1 d' found ends circuit in
        (
          r.0,
          rw (hop-writes hop relay bs.0 d)
              (rw (passes hop.world relay overhead over fits) (rw read.1 r.1)),
          r.2 ∙ read.3,
          r.3,
        )
