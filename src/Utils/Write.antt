-- ===== src/Utils/Write.antt =====
-- network/utils.rs: writing a relay message to a stream, and reading one.
use white_noise_rs.Prelude.{ℕ, String, Option, none, some, List, []}
use white_noise_rs.Proto.{Relay, relaytype_i32, set_session_id, disconnected, wake, probe, success}
use white_noise_rs.Host.{Host}
use white_noise_rs.State.{WrappedStream, role_i32, entry_role}
use white_noise_rs.Task.{Task, stream_write, pure, unwrap, emit, read, ◌>>=◌, ◌>>◌}
use white_noise_rs.Utils.Ids.{from_bytes_get_id}
use white_noise_rs.Utils.Confusion.{confusion_relay, jitter}
use white_noise_rs.Prelude.{as_bytes}

-- A message as its sender first builds it.
abbrev pub new_relay : ℕ → List ℕ → Relay
new_relay type payload = record { id = ""; type = type; payload = payload; confusion = [] }

module _ (host : Host) where
  -- The message with the hash of its own encoding, taken before, as its id.
  abbrev pub with_id : Relay → Relay
  with_id relay = record relay { id = from_bytes_get_id host (host.relay.encode relay) }

  unfoldable pub write_relay_arc : WrappedStream → Relay → Task String
  write_relay_arc stream relay = do
    confused ← confusion_relay relay
    let sealed = with_id confused
    jitter
    emit (stream_write stream (host.relay.encode sealed))
    pure sealed.id

  unfoldable pub write_disconnect_arc : WrappedStream → String → Task (Unit {0})
  write_disconnect_arc stream session_id = do
    let payload = host.disconnect.encode (record { session_id = session_id; err_code = 0 })
    write_relay_arc stream (new_relay (relaytype_i32 disconnected) payload)
    pure tt

  unfoldable pub write_relay_wake_arc : WrappedStream → Task (Unit {0})
  write_relay_wake_arc stream = do
    write_relay_arc stream (new_relay (relaytype_i32 wake) [])
    pure tt

  unfoldable pub write_set_session_with_role_arc : WrappedStream → String → ℕ → Task String
  write_set_session_with_role_arc stream session_id session_role = write_relay_arc stream (
      new_relay (relaytype_i32 set_session_id)
        (host.set_session_id_msg.encode (record { session_id = session_id; role = session_role })))

  unfoldable pub write_set_session_arc : WrappedStream → String → Task String
  write_set_session_arc stream session_id =
      write_set_session_with_role_arc stream session_id (role_i32 entry_role)

  unfoldable pub new_relay_circuit_success : String → Relay
  new_relay_circuit_success session_id =
      new_relay (relaytype_i32 success)
        (host.circuit_success.encode (record { session_id = session_id }))

  unfoldable pub new_relay_probe : String → Relay
  new_relay_probe session_id = new_relay (relaytype_i32 probe) (
      host.probe_signal.encode
        (record { session_id = session_id; payload = host.sha256 (as_bytes session_id) }))

  abbrev pub decode_read : Option (List ℕ) → Task (Option Relay)
  decode_read none = pure none
  decode_read (some msg) = do relay ← unwrap (host.relay.decode msg); pure (some relay)

  -- `none` is the Err that a closed or broken stream gives; a message that is no Relay panics.
  unfoldable pub read_from_negotiated_arc : Task (Option Relay)
  read_from_negotiated_arc = do msg ← read; decode_read msg
