-- ===== src/Utils/Substream.antt =====
-- network/utils.rs: the same functions on a NegotiatedSubstream of libp2p, which they write to and read from
-- themselves. A substream is a number that names it.
use white_noise_rs.Prelude.{ℕ, suc, String, Bool, true, false, Option, none, some, List, [], length}
use white_noise_rs.Proto.{Relay, relaytype_i32, set_session_id, relay_data, wake}
use white_noise_rs.Host.{Host}
use white_noise_rs.State.{role_i32, entry_role}
use white_noise_rs.Task.{
  Task, substream_write, as_wrote, wait_for, pure, panic, unwrap, emit, read, ◌>>=◌, ◌>>◌,
}
use white_noise_rs.Utils.Confusion.{confusion_relay, jitter}
use white_noise_rs.Utils.Payload.{frame}
use white_noise_rs.Utils.Limit.{limited}
use white_noise_rs.Utils.Write.{new_relay, with_id, decode_read}
use white_noise_rs.Utils.Reading.{next_data, payload_of}

-- `.await.unwrap()` of a write
abbrev pub written_or_panic : Bool → Task (Unit {0})
written_or_panic true = pure tt
written_or_panic false = panic

module _ (host : Host) where
  unfoldable pub write_relay : ℕ → Relay → Task String
  write_relay stream relay = do
    confused ← confusion_relay relay
    let sealed = with_id host confused
    jitter
    emit (substream_write stream (host.relay.encode sealed))
    result ← wait_for as_wrote
    written_or_panic result
    pure sealed.id

  unfoldable pub write_relay_wake : ℕ → Task (Unit {0})
  write_relay_wake stream = do write_relay stream (new_relay (relaytype_i32 wake) []); pure tt

  unfoldable pub write_set_session : ℕ → String → Task String
  write_set_session stream session_id = write_relay stream (
      new_relay (relaytype_i32 set_session_id) (
        host.set_session_id_msg.encode
          (record { session_id = session_id; role = role_i32 entry_role })))

  unfoldable pub write_payload : ℕ → List ℕ → String → Task (Unit {0})
  write_payload stream buf session_id = do
    let payload = host.relay_msg.encode (record { session_id = session_id; payload = frame buf })
    write_relay stream (new_relay (relaytype_i32 relay_data) payload)
    pure tt

  unfoldable pub write_handshake_payload : ℕ → List ℕ → String → Task (Unit {0})
  write_handshake_payload stream buf session_id = write_payload stream buf session_id

  abbrev pub within_limit : Option (List ℕ) → Option (List ℕ)
  within_limit none = none
  within_limit (some msg) = limited msg

  -- `none` is the error of read_one.
  unfoldable pub read_from_negotiated : Task (Option Relay)
  read_from_negotiated = do msg ← read; decode_read host (within_limit msg)

  unfoldable pub read_payload : Task (List ℕ)
  read_payload = do
    relay ← λ w. next_data (suc (length w.inputs)) read_from_negotiated w
    payload_of host relay

module _ {S : Type 0} (host : Host) (read_message : S → List ℕ → Option (List ℕ × S)) where
  unfoldable pub read_and_decrypt_payload : S → Task (List ℕ × S)
  read_and_decrypt_payload noise = do
    payload ← read_payload host
    unwrap (read_message noise payload)

  unfoldable pub read_handshake_payload : S → Task (List ℕ × S)
  read_handshake_payload noise = do payload ← read_payload host; unwrap (read_message noise payload)

module _ {S : Type 0} (host : Host) (write_message : S → List ℕ → Option (List ℕ × S)) where
  unfoldable pub write_encrypted_payload : ℕ → List ℕ → String → S → Task S
  write_encrypted_payload stream payload session_id noise = do
    message ← unwrap (write_message noise payload)
    write_payload host stream message.0 session_id
    pure message.1
