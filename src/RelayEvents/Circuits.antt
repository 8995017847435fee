-- ===== src/RelayEvents/Circuits.antt =====
-- network/relay_event_handler.rs: handle_success, handle_relay_msg and add_circuit_conn. The ends of a
-- circuit take these messages; the nodes between them pass them on.
use white_noise_rs.Prelude.{
  String, Option, none, some, true, false, suc, ◌||◌, ◌==◌, ℕ_eq, string_eq, if◌then◌else◌,
}
use white_noise_rs.HashMap.{get, insert}
use white_noise_rs.Proto.{Relay, RelayMsg, CircuitSuccess}
use white_noise_rs.Host.{Host}
use white_noise_rs.State.{
  WrappedStream, Session, CircuitConn, Shared, role_i32, caller_role, answer_role, ready,
}
use white_noise_rs.Task.{
  Task, circuit_send, spawn_handshake, pure, unwrap, reads, modify, emit, when, ◌>>=◌,
}
use white_noise_rs.Utils.Forward.{forward_relay}

abbrev pub send_to_circuit : RelayMsg → Option CircuitConn → Task (Unit {0})
send_to_circuit relay_msg none = pure tt
send_to_circuit relay_msg (some circuit_conn) =
    emit (circuit_send circuit_conn.channel relay_msg.payload)

module _ (host : Host) where
  abbrev pub success_session : Option Session → String → Relay → WrappedStream → Task (Unit {0})
  success_session none session_id relay stream = pure tt
  success_session (some session) session_id relay stream =
      if session.session_role == role_i32 caller_role
      then (do
        found ← reads (λ s. get s.circuit_map session_id)
        circuit_conn ← unwrap found
        emit (spawn_handshake circuit_conn true session_id))
      else if session.session_role == role_i32 answer_role
      then (do
        found ← reads (λ s. get s.circuit_map session_id)
        circuit_conn ← unwrap found
        emit (spawn_handshake circuit_conn false session_id))
      else when (ready session) (forward_relay host session stream.stream_id relay)

  abbrev pub decoded_success : Option CircuitSuccess → Relay → WrappedStream → Task (Unit {0})
  decoded_success none relay stream = pure tt
  decoded_success (some relay_success) relay stream = do
    session ← reads (λ s. get s.session_map relay_success.session_id)
    success_session session relay_success.session_id relay stream

  unfoldable pub handle_success : Relay → WrappedStream → Task (Unit {0})
  handle_success relay stream =
      decoded_success (host.circuit_success.decode relay.payload) relay stream

  abbrev pub message_session : Option Session → RelayMsg → Relay → WrappedStream → Task (Unit {0})
  message_session none relay_msg relay stream = pure tt
  message_session (some session) relay_msg relay stream =
      if session.session_role == role_i32 answer_role
        || session.session_role == role_i32 caller_role
      then (do
        circuit_conn_opt ← reads (λ s. get s.circuit_map relay_msg.session_id)
        send_to_circuit relay_msg circuit_conn_opt)
      else when (ready session) (forward_relay host session stream.stream_id relay)

  abbrev pub decoded_message : Option RelayMsg → Relay → WrappedStream → Task (Unit {0})
  decoded_message none relay stream = pure tt
  decoded_message (some relay_msg) relay stream = do
    session ← reads (λ s. get s.session_map relay_msg.session_id)
    message_session session relay_msg relay stream

  unfoldable pub handle_relay_msg : Relay → WrappedStream → Task (Unit {0})
  handle_relay_msg relay stream = decoded_message (host.relay_msg.decode relay.payload) relay stream

-- entry(…).or_insert_with: a circuit that is there stays.
abbrev pub insert_circuit : Option CircuitConn → String → WrappedStream → Shared → Shared
insert_circuit (some circuit_conn) session_id stream s = s
insert_circuit none session_id stream s = record s {
  circuit_map = insert s.circuit_map session_id (record {
    id = session_id;
    out_stream = stream;
    channel = s.next_channel;
    transport_state = none;
  });
  next_channel = suc s.next_channel;
}

unfoldable pub add_circuit_conn : String → WrappedStream → Task (Unit {0})
add_circuit_conn session_id stream =
    modify (λ s. insert_circuit (get s.circuit_map session_id) session_id stream s)
