-- ===== src/Utils/Payload.antt =====
-- network/utils.rs, network/relay_event_handler.rs and network/connection.rs: the two-byte length in
-- front of a payload. Bytes are numbers below 256.
use white_noise_rs.Prelude.{
  ℕ, ◌+◌, ◌*◌, ◌/◌, ◌%◌, String, Option, none, some, List, [], ◌∷◌, length, take, leb,
  if◌then◌else◌,
}
use white_noise_rs.Proto.{relaytype_i32, relay_data}
use white_noise_rs.Host.{Host}
use white_noise_rs.State.{WrappedStream}
use white_noise_rs.Task.{Task, pure, unwrap, ◌>>=◌, ◌>>◌}
use white_noise_rs.Utils.Write.{new_relay, write_relay_arc}

-- `put_u16(len as u16)` and then the bytes: `write_payload` builds it byte by byte.
unfoldable pub frame : List ℕ → List ℕ
frame buf = (length buf % 65536 / 256) ∷ (length buf % 256) ∷ buf

-- `write_payload_arc` fills the spare room of a Vec::with_capacity(2 + len) in one copy. With nothing
-- left to fill, `chunk_mut` makes room for more, and `copy_from_slice` panics: `none`.
unfoldable pub frame_arc : List ℕ → Option (List ℕ)
unfolding frame
frame_arc [] = none
frame_arc (b ∷ buf) = some (frame (b ∷ buf))

-- data[2..(2 + buf_len)] after data[0] and data[1]; `none` is a panic out of bounds.
unfoldable pub deframe : List ℕ → Option (List ℕ)
deframe [] = none
deframe (hi ∷ []) = none
deframe (hi ∷ lo ∷ rest) =
    if leb (hi * 256 + lo) (length rest) then some (take (hi * 256 + lo) rest) else none

module _ (host : Host) where
  unfoldable pub write_payload_arc : WrappedStream → List ℕ → String → Task (Unit {0})
  write_payload_arc stream buf session_id = do
    new_buf ← unwrap (frame_arc buf)
    let payload = host.relay_msg.encode (record { session_id = session_id; payload = new_buf })
    write_relay_arc host stream (new_relay (relaytype_i32 relay_data) payload)
    pure tt
