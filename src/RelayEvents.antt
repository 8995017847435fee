-- ===== src/RelayEvents.antt =====
-- network/relay_event_handler.rs: the task that reads one relay stream. One child for each kind of
-- message, and the loop here.
pub mod Probing
pub mod Circuits
pub mod Joining
pub mod Roles
pub mod Sink
pub mod Delivery
use white_noise_rs.Prelude.{
  ℕ, zero, suc, List, length, String, Bool, false, ◌||◌, Option, none, some, ◌==◌, ℕ_eq, string_eq,
  if◌then◌else◌,
}
use white_noise_rs.HashMap.{get}
use white_noise_rs.Proto.{
  Disconnect, Relay, SetSessionIdMsg, relaytype_i32, set_session_id, acked, relay_data,
  disconnected, wake, probe, success,
}
use white_noise_rs.Host.{Host}
use white_noise_rs.State.{WrappedStream, Session, Shared, role_i32, answer_role}
use white_noise_rs.Task.{Task, pure, unwrap, out_of_fuel, reads, when, ◌>>=◌, ◌>>◌}
use white_noise_rs.Utils.Write.{read_from_negotiated_arc}
use white_noise_rs.Node.Sessions.{handle_close_session}
use Probing.{handle_relay_probe}
use Circuits.{handle_success, handle_relay_msg, add_circuit_conn}
use Joining.{handle_set_session}

abbrev pub is_stream : Option WrappedStream → String → Bool
is_stream none id = false
is_stream (some stream) id = stream.stream_id == id

-- `find_stream`: is the stream one of the session's two?
abbrev pub has_stream : Option Session → String → Bool
has_stream none id = false
has_stream (some session) id =
    is_stream session.early_stream id || is_stream session.later_stream id

-- The stream is closed or broken.
unfoldable pub on_read_error : WrappedStream → Option String → Task (Unit {0})
on_read_error stream none = pure tt
on_read_error stream (some session_id) = do
  find_stream ← reads (λ s. has_stream (get s.session_map session_id) stream.stream_id)
  when find_stream (handle_close_session session_id)

-- `break`, or another round with this session id.
pub data Turn : Type 0 where
  stop : Turn
  go_on : Option String → Turn

abbrev pub first_id : Option String → String → Option String
first_id none id = some id
first_id (some old) id = some old

-- A Disconnect that does not decode only ends the loop.
abbrev pub on_disconnect : Option Disconnect → Task Turn
on_disconnect none = pure stop
on_disconnect (some m) = do handle_close_session m.session_id; pure stop

module _ (host : Host) where
  unfoldable pub on_set_session_id : WrappedStream → Option String → Relay → Task Turn
  on_set_session_id stream session_id read_relay = do
    msg ← unwrap (host.set_session_id_msg.decode read_relay.payload)
    let known = first_id session_id msg.session_id
    id ← unwrap known
    when (msg.role == role_i32 answer_role) (add_circuit_conn id stream)
    handle_set_session host msg stream read_relay.id
    pure (go_on known)

  -- One round of the loop, after a message has been read.
  unfoldable pub on_relay : WrappedStream → Option String → Relay → Task Turn
  on_relay stream session_id read_relay =
      if read_relay.type == relaytype_i32 wake
      then pure (go_on session_id)
      else if read_relay.type == relaytype_i32 acked
      then pure (go_on session_id)
      else if read_relay.type == relaytype_i32 probe
      then (do
        id ← unwrap session_id
        handle_relay_probe host id stream read_relay
        pure (go_on session_id))
      else if read_relay.type == relaytype_i32 disconnected
      then on_disconnect (host.disconnect.decode read_relay.payload)
      else if read_relay.type == relaytype_i32 set_session_id
      then on_set_session_id stream session_id read_relay
      else if read_relay.type == relaytype_i32 success
      then (do handle_success host read_relay stream; pure (go_on session_id))
      else if read_relay.type == relaytype_i32 relay_data
      then (do handle_relay_msg host read_relay stream; pure (go_on session_id))
      else pure (go_on session_id)

  unfoldable pub relay_event_loop : ℕ → WrappedStream → Option String → Task (Unit {0})
  relay_event_loop zero stream session_id = out_of_fuel
  relay_event_loop (suc fuel) stream session_id = do
    read_relay_option ← read_from_negotiated_arc host
    elim read_relay_option [
      | none ↦ on_read_error stream session_id
      | some read_relay ↦ (do
        turn ← on_relay stream session_id read_relay
        elim turn [ stop ↦ pure tt | go_on id ↦ relay_event_loop fuel stream id ])
    ]

  -- Each round takes an input at least, so a round more than there are inputs is enough.
  unfoldable pub relay_event_handler : WrappedStream → Option String → Task (Unit {0})
  relay_event_handler stream session_id w =
      relay_event_loop (suc (length w.inputs)) stream session_id w
