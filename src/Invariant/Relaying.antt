-- ===== src/Invariant/Relaying.antt =====
-- network/relay_event_handler.rs: every message on a relay stream keeps the invariant.
use white_noise_rs.Prelude.{
  ◌≡◌, if◌then◌else◌, string_eq, String, Bool, true, false, Option, none, some, refl, ◌≡◌, ℕ,
}
use white_noise_rs.HashMap.{get}
use white_noise_rs.Proto.{Relay, SetSessionIdMsg, RelayMsg, ProbeSignal, CircuitSuccess}
use white_noise_rs.Host.{Host}
use white_noise_rs.State.{ready, WrappedStream, Session, CircuitConn, Probe, Shared}
use white_noise_rs.Task.{◌>>◌, emit, stream_close, Task, World, pure, unwrap, ◌>>=◌, modify}
use white_noise_rs.Task.Consumes.{
  Consumes, Consumes-bind, Consumes-modify, Consumes-unwrap, Consumes-emit, Consumes-pure,
  Consumes-if,
}
use white_noise_rs.Task.Keeps.{
  Keeps, Sound, Keeps-modify, Keeps-bind, Keeps-bind-reads, Keeps-pure, Keeps-if, Keeps-when,
  Keeps-unwrap, Keeps-emit, Keeps-reads,
}
use white_noise_rs.Utils.Keeping.{
  keeping, send_relay_twoway-Keeps, forward_relay-Keeps, write_disconnect_arc-Keeps,
}
use white_noise_rs.Node.Sessions.{join_session}
use white_noise_rs.Utils.Write.{write_disconnect_arc}
use white_noise_rs.RelayEvents.Probing.{compare_probe, probe_session, handle_relay_probe}
use white_noise_rs.RelayEvents.Circuits.{
  send_to_circuit, success_session, decoded_success, handle_success, message_session,
  decoded_message, handle_relay_msg, add_circuit_conn,
}
use white_noise_rs.RelayEvents.Joining.{
  ack_stream, is_entry_and_relay, replace_later, set_entry_session, handle_set_session,
}
use white_noise_rs.Invariant.Updates.{
  Fits, insert_probe-Fits, insert_circuit-Fits, replace_later-Fits,
}
use white_noise_rs.Invariant.Sessions.{
  handle_close_session-Keeps, join_session-Keeps, send_ack-Keeps,
}

if-Sound :
    (P : Shared → Type 0) {A : Type 0} (b : Bool) (m n : Task A) (w : World)
    → Sound P (m w).1
    → Sound P (n w).1
    → Sound P ((if b then m else n) w).1
if-Sound P true m n w hm hn = hm
if-Sound P false m n w hm hn = hn

module _ (host : Host) where
  ack_stream-Consumes : (stream : WrappedStream) (id : String) → Consumes (ack_stream stream id)
  unfolding ack_stream
  ack_stream-Consumes stream id = (send_ack-Keeps host {floor = 0} _).consumes

  replace_later-Consumes :
      (session : Session) (msg : SetSessionIdMsg) (stream : WrappedStream) (id : String)
      → Consumes (replace_later host session msg stream id)
  unfolding replace_later
  replace_later-Consumes session msg stream id = Consumes-bind _ _ (Consumes-modify _) (λ _.
      Consumes-bind _ _ (Consumes-unwrap _) (λ c.
        Consumes-bind _ _ (write_disconnect_arc-Keeps host {P = Fits host 0} c _).consumes
          (λ _. Consumes-bind _ _ (Consumes-emit _) (λ _. ack_stream-Consumes stream id))))

  set_entry_session-Consumes :
      (o : Option Session) (msg : SetSessionIdMsg) (stream : WrappedStream) (id : String)
      → Consumes (set_entry_session host o msg stream id)
  set_entry_session-Consumes none msg stream id = Consumes-pure tt
  set_entry_session-Consumes (some session) msg stream id =
      Consumes-if (ready session) _ _ (replace_later-Consumes session msg stream id)
        (handle_close_session-Keeps host {floor = 0} msg.session_id).consumes

module _ (host : Host) {floor : ℕ} where
  compare_probe-Keeps :
      (session : Session) (id : String) (signal : ProbeSignal) (o : Option Probe)
      → Keeps (Fits host floor) (compare_probe host session id signal o)
  compare_probe-Keeps session id signal none =
      Keeps-modify _ (λ s h. insert_probe-Fits h id signal.payload)
  compare_probe-Keeps session id signal (some p) =
      Keeps-if _ _ _ (send_relay_twoway-Keeps session _) (handle_close_session-Keeps host id)

  probe_session-Keeps :
      (o : Option Session) (id : String) (signal : ProbeSignal) (stream : WrappedStream)
      (relay : Relay)
      → Keeps (Fits host floor) (probe_session host o id signal stream relay)
  probe_session-Keeps none id signal stream relay = Keeps-pure tt
  probe_session-Keeps (some session) id signal stream relay =
      Keeps-if _ _ _ (Keeps-bind _ _ (Keeps-reads _) (compare_probe-Keeps session id signal))
        (Keeps-when _ _ (forward_relay-Keeps host session _ relay))

  pub handle_relay_probe-Keeps :
      (id : String) (stream : WrappedStream) (relay : Relay)
      → Keeps (Fits host floor) (handle_relay_probe host id stream relay)
  unfolding handle_relay_probe
  handle_relay_probe-Keeps id stream relay =
      Keeps-bind _ _ (Keeps-unwrap _) (λ signal.
        Keeps-bind _ _ (Keeps-reads _) (λ o. probe_session-Keeps o id signal stream relay))

  success_session-Keeps :
      (o : Option Session) (id : String) (relay : Relay) (stream : WrappedStream)
      → Keeps (Fits host floor) (success_session host o id relay stream)
  success_session-Keeps none id relay stream = Keeps-pure tt
  success_session-Keeps (some session) id relay stream = search keeping depth 12

  decoded_success-Keeps :
      (o : Option CircuitSuccess) (relay : Relay) (stream : WrappedStream)
      → Keeps (Fits host floor) (decoded_success host o relay stream)
  decoded_success-Keeps none relay stream = Keeps-pure tt
  decoded_success-Keeps (some m) relay stream =
      Keeps-bind _ _ (Keeps-reads _) (λ o. success_session-Keeps o m.session_id relay stream)

  pub handle_success-Keeps :
      (relay : Relay) (stream : WrappedStream)
      → Keeps (Fits host floor) (handle_success host relay stream)
  unfolding handle_success
  handle_success-Keeps relay stream = decoded_success-Keeps _ relay stream

  send_to_circuit-Keeps :
      (m : RelayMsg) (o : Option CircuitConn) → Keeps (Fits host floor) (send_to_circuit m o)
  send_to_circuit-Keeps m none = Keeps-pure tt
  send_to_circuit-Keeps m (some c) = Keeps-emit _

  message_session-Keeps :
      (o : Option Session) (m : RelayMsg) (relay : Relay) (stream : WrappedStream)
      → Keeps (Fits host floor) (message_session host o m relay stream)
  message_session-Keeps none m relay stream = Keeps-pure tt
  message_session-Keeps (some session) m relay stream =
      Keeps-if _ _ _ (Keeps-bind _ _ (Keeps-reads _) (send_to_circuit-Keeps m))
        (Keeps-when _ _ (forward_relay-Keeps host session _ relay))

  decoded_message-Keeps :
      (o : Option RelayMsg) (relay : Relay) (stream : WrappedStream)
      → Keeps (Fits host floor) (decoded_message host o relay stream)
  decoded_message-Keeps none relay stream = Keeps-pure tt
  decoded_message-Keeps (some m) relay stream =
      Keeps-bind _ _ (Keeps-reads _) (λ o. message_session-Keeps o m relay stream)

  pub handle_relay_msg-Keeps :
      (relay : Relay) (stream : WrappedStream)
      → Keeps (Fits host floor) (handle_relay_msg host relay stream)
  unfolding handle_relay_msg
  handle_relay_msg-Keeps relay stream = decoded_message-Keeps _ relay stream

  pub add_circuit_conn-Keeps :
      (id : String) (stream : WrappedStream) → Keeps (Fits host floor) (add_circuit_conn id stream)
  unfolding add_circuit_conn
  add_circuit_conn-Keeps id stream =
      Keeps-modify _ (λ s h. insert_circuit-Fits h (get s.circuit_map id) id stream)

  ack_stream-Keeps :
      (stream : WrappedStream) (id : String) → Keeps (Fits host floor) (ack_stream stream id)
  unfolding ack_stream
  ack_stream-Keeps stream id = send_ack-Keeps host _

  -- The session that is written back is the one that was read, with another later stream.
  replace_later-Sound :
      (session : Session) (msg : SetSessionIdMsg) (stream : WrappedStream) (id : String) (w : World)
      → get w.shared.session_map msg.session_id ≡ some session
      → Sound (Fits host floor) w
      → Sound (Fits host floor) (replace_later host session msg stream id w).1
  unfolding replace_later ◌>>=◌
  replace_later-Sound session msg stream id w e h =
      after.at _ (replace_later-Fits h.0 msg.session_id session stream e, h.1, h.2)
    where
      after : Keeps (Fits host floor) (do
        to_close_stream ← unwrap session.later_stream
        write_disconnect_arc host to_close_stream msg.session_id
        emit (stream_close to_close_stream)
        ack_stream stream id)
      after = Keeps-bind _ _ (Keeps-unwrap _) (λ c.
          Keeps-bind _ _ (write_disconnect_arc-Keeps host c _)
            (λ _. Keeps-bind _ _ (Keeps-emit _) (λ _. ack_stream-Keeps stream id)))

  set_entry_session-Sound :
      (o : Option Session) (msg : SetSessionIdMsg) (stream : WrappedStream) (id : String)
      (w : World)
      → get w.shared.session_map msg.session_id ≡ o
      → Sound (Fits host floor) w
      → Sound (Fits host floor) (set_entry_session host o msg stream id w).1
  unfolding pure
  set_entry_session-Sound none msg stream id w e h = h
  set_entry_session-Sound (some session) msg stream id w e h =
      if-Sound (Fits host floor) (ready session) _ _ w
        (replace_later-Sound session msg stream id w e h)
        ((handle_close_session-Keeps host msg.session_id).at w h)

  join_and_ack :
      (msg : SetSessionIdMsg) (stream : WrappedStream) (id : String)
      → Keeps
          (Fits host floor)
          (do modify (join_session msg.session_id msg.role stream); ack_stream stream id)
  join_and_ack msg stream id =
      Keeps-bind _ _ (join_session-Keeps host msg.session_id msg.role stream)
        (λ _. ack_stream-Keeps stream id)

  pub handle_set_session-Keeps :
      (msg : SetSessionIdMsg) (stream : WrappedStream) (id : String)
      → Keeps (Fits host floor) (handle_set_session host msg stream id)
  unfolding handle_set_session
  handle_set_session-Keeps msg stream id =
      Keeps-bind-reads _ _
        (λ o.
          Consumes-if (is_entry_and_relay o msg) _ _
            (set_entry_session-Consumes host o msg stream id) (join_and_ack msg stream id).consumes)
        λ w h.
          if-Sound (Fits host floor)
            (is_entry_and_relay (get w.shared.session_map msg.session_id) msg) _ _ w
            (set_entry_session-Sound (get w.shared.session_map msg.session_id) msg stream id w refl
              h)
            ((join_and_ack msg stream id).at w h)
