-- ===== src/Utils/Reading.antt =====
-- network/utils.rs: reading a payload. Messages of other types than Data are skipped; the noise states are
-- those of Handshake and Connection.
use white_noise_rs.Prelude.{ℕ, zero, suc, String, Option, List, length, ◌==◌, ℕ_eq, if◌then◌else◌}
use white_noise_rs.Proto.{Relay, relaytype_i32, relay_data}
use white_noise_rs.Host.{Host}
use white_noise_rs.State.{WrappedStream}
use white_noise_rs.Task.{◌>>◌, Task, pure, unwrap, out_of_fuel, ◌>>=◌}
use white_noise_rs.Utils.Payload.{deframe, write_payload_arc}
use white_noise_rs.Utils.Write.{read_from_negotiated_arc}

-- The loop of both readers: the next message of type Data; a read error is a panic.
unfoldable pub next_data : ℕ → Task (Option Relay) → Task Relay
next_data zero reads_one = out_of_fuel
next_data (suc fuel) reads_one = do
  relay_inner_rest ← reads_one
  relay_inner ← unwrap relay_inner_rest
  let rest = next_data fuel reads_one
  if relay_inner.type == relaytype_i32 relay_data then pure relay_inner else rest

module _ (host : Host) where
  abbrev pub payload_of : Relay → Task (List ℕ)
  payload_of relay = do
    relay_msg ← unwrap (host.relay_msg.decode relay.payload)
    unwrap (deframe relay_msg.payload)

  -- Each round takes an input, so a round more than there are inputs is enough.
  unfoldable pub read_payload_arc : Task (List ℕ)
  read_payload_arc = do
    relay ← λ w. next_data (suc (length w.inputs)) (read_from_negotiated_arc host) w
    payload_of relay

-- A noise state reads the payload, and its next state stays.
module _ {S : Type 0} (host : Host) (read_message : S → List ℕ → Option (List ℕ × S)) where
  unfoldable pub read_and_decrypt_payload_arc : S → Task (List ℕ × S)
  read_and_decrypt_payload_arc noise = do
    payload ← read_payload_arc host
    unwrap (read_message noise payload)

  unfoldable pub read_handshake_payload_arc : S → Task (List ℕ × S)
  read_handshake_payload_arc noise = do
    payload ← read_payload_arc host
    unwrap (read_message noise payload)

module _ {S : Type 0} (host : Host) (write_message : S → List ℕ → Option (List ℕ × S)) where
  unfoldable pub write_encrypted_payload_arc : WrappedStream → List ℕ → String → S → Task S
  write_encrypted_payload_arc stream payload session_id noise = do
    message ← unwrap (write_message noise payload)
    write_payload_arc host stream message.0 session_id
    pure message.1
