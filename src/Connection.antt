-- ===== src/Connection.antt =====
-- network/connection.rs and `send_message` of network/node.rs: the encrypted circuit. The noise library is a
-- parameter: what the state of that name makes of the next message, `none` being an error of the library.
pub mod Roundtrip
use white_noise_rs.Prelude.{
  ℕ, ◌+◌, ◌*◌, ◌^◌, String, Option, none, some, List, [], ◌∷◌, ◌++◌, length, take, drop, leb,
  string_eq, if◌then◌else◌,
}
use white_noise_rs.HashMap.{get}
use white_noise_rs.Host.{Host}
use white_noise_rs.State.{CircuitConn}
use white_noise_rs.Task.{Task, pure, unwrap, reads, next_circuit_data, ◌>>=◌}
use white_noise_rs.Utils.Payload.{deframe, write_payload_arc}

-- u32::from_be_bytes of the first four bytes; `none` is a panic out of bounds.
unfoldable pub be_u32 : List ℕ → Option ℕ
be_u32 (a ∷ b ∷ c ∷ d ∷ rest) = some (a * 2 ^ 24 + b * 2 ^ 16 + c * 2 ^ 8 + d)
be_u32 _ = none

-- buf[4..(real_size + 4)]
abbrev pub after_size : ℕ → List ℕ → Option (List ℕ)
after_size real_size buf =
    if leb (real_size + 4) (length buf) then some (take real_size (drop 4 buf)) else none

-- read_message writes to the front of the buffer, and leaves what was behind it.
abbrev pub filled : List ℕ → List ℕ → List ℕ
filled plain buf = plain ++ drop (length plain) buf

-- A buffer that is shorter than the plain text is an error of the library.
unfoldable pub into_buf : List ℕ → List ℕ → Option (List ℕ)
into_buf plain buf = if leb (length plain) (length buf) then some (filled plain buf) else none

module _ (decrypts : ℕ → List ℕ → Option (List ℕ)) where
  -- The message, and the buffer as it is afterwards.
  abbrev pub read_with : Option ℕ → List ℕ → Task (List ℕ × List ℕ)
  read_with none buf = pure ([], buf)
  read_with (some state) buf = do
    received ← next_circuit_data
    msg ← unwrap received
    payload ← unwrap (deframe msg)
    plain ← unwrap (decrypts state payload)
    read_buf ← unwrap (into_buf plain buf)
    real_size ← unwrap (be_u32 read_buf)
    message ← unwrap (after_size real_size read_buf)
    pure (message, read_buf)

  unfoldable pub read_circuit : CircuitConn → List ℕ → Task (List ℕ × List ℕ)
  read_circuit conn buf = read_with conn.transport_state buf

module _ (host : Host) (encrypts : ℕ → List ℕ → Option (List ℕ)) where
  abbrev pub write_with : Option ℕ → CircuitConn → List ℕ → Task (Unit {0})
  write_with none conn payload = pure tt
  write_with (some state) conn payload = do
    sealed ← unwrap (encrypts state payload)
    write_payload_arc host conn.out_stream sealed conn.id

  unfoldable pub write_circuit : CircuitConn → List ℕ → Task (Unit {0})
  write_circuit conn payload = write_with conn.transport_state conn payload

  unfoldable pub send_message : String → List ℕ → Task (Unit {0})
  send_message session_id message = do
    found ← reads (λ s. get s.circuit_map session_id)
    circuit_conn ← unwrap found
    write_circuit circuit_conn message
