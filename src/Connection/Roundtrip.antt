-- ===== src/Connection/Roundtrip.antt =====
-- network/connection.rs: a message that is written to a circuit is read at its other end.
use white_noise_rs.Prelude.{
  ℕ, ◌+◌, ◌^◌, ◌<◌, ◌≤◌, ◌≡◌, refl, ap, Option, some, true, List, ◌∷◌, ◌++◌, length, drop, leb, All,
  take-append, length-append, arith, String, string_eq,
}
use white_noise_rs.HashMap.{get}
use white_noise_rs.Proto.{Relay, relaytype_i32, relay_data}
use white_noise_rs.Host.{Host}
use white_noise_rs.State.{CircuitConn}
use white_noise_rs.Task.{Input, World, done, elapsed, circuit_data, wait_for, expect, ◌>>=◌}
use white_noise_rs.Utils.Payload.{frame, frame_arc, write_payload_arc}
use white_noise_rs.Utils.Framing.{IsByte, deframe-frame}
use white_noise_rs.Utils.Write.{new_relay}
use white_noise_rs.Utils.Sending.{sent, write_relay_arc-done}
use white_noise_rs.Client.{be_bytes}
use white_noise_rs.Connection.{
  be_u32, after_size, filled, into_buf, read_circuit, write_circuit, send_message,
}

-- A task that has taken the arrival of a message.
abbrev pub heard : World → Input → List Input → World
heard w arrival more = record w {
  shared = arrival.others w.shared;
  inputs = more;
  seen = w.shared ∷ w.seen;
}

-- A message with its length in front, as the ends of a circuit lay it out.
abbrev pub sized : List ℕ → List ℕ
sized msg = be_bytes 4 (length msg) ++ msg

be_u32-sized :
    (msg rest : List ℕ) → length msg < 2 ^ 32 → be_u32 (sized msg ++ rest) ≡ some (length msg)
unfolding be_u32
be_u32-sized msg rest h = ap some (omega arith)

after_size-sized : (msg rest : List ℕ) → after_size (length msg) (sized msg ++ rest) ≡ some msg
after_size-sized msg rest =
    let fits : leb (length msg + 4) (length (sized msg ++ rest)) ≡ true =
      ground (arith, length-append msg rest) in
    rw fits (rw (take-append msg rest) refl)

into_buf-fits :
    (plain buf : List ℕ) → length plain ≤ length buf → into_buf plain buf ≡ some (filled plain buf)
unfolding into_buf
into_buf-fits plain buf h =
    let e : leb (length plain) (length buf) ≡ true = ground arith in rw e refl

module _ (host : Host) (encrypts decrypts : ℕ → List ℕ → Option (List ℕ)) (id : String)
    (caller answer : CircuitConn) (state other : ℕ) (msg sealed buf : List ℕ) (b : ℕ)
    (w reader : World) (tick arrival : Input) (rest more : List Input)
    (found : get w.shared.circuit_map id ≡ some caller)
    (shaken : caller.transport_state ≡ some state) (shaken' : answer.transport_state ≡ some other)
    (short : length msg < 2 ^ 32) (fits : length (b ∷ sealed) < 65536)
    (bytes : All IsByte (b ∷ sealed)) (encrypted : encrypts state (sized msg) ≡ some (b ∷ sealed))
    (decrypted : decrypts other (b ∷ sealed) ≡ some (sized msg))
    (room : length msg + 4 ≤ length buf) (next : w.inputs ≡ tick ∷ rest)
    (ticks : tick.answer ≡ elapsed) (next' : reader.inputs ≡ arrival ∷ more)
    (arrives : arrival.answer ≡ circuit_data (some (frame (b ∷ sealed)))) where
  -- A message with its length in front that is sent on a circuit goes out encrypted and framed, as the data of
  -- a relay message of that circuit; and the other end of the circuit, where the frame arrives and is
  -- decrypted to what was encrypted, reads the message, whatever is in its buffer, if that has room for it and its length; and it takes no
  -- other input.
  pub send_message_read :
      let relay =
        new_relay (relaytype_i32 relay_data) (
          host.relay_msg.encode
            (record { session_id = caller.id; payload = frame (b ∷ sealed) })) in
      (send_message host encrypts id (sized msg) w
        ≡ (done tt, sent host caller.out_stream relay tick rest w))
      × ((read_circuit decrypts answer buf reader)
          ≡ (done (msg, filled (sized msg) buf), heard reader arrival more))
  unfolding send_message read_circuit write_circuit write_payload_arc frame_arc wait_for expect
      ◌>>=◌
  send_message_read =
      let relay : Relay =
        new_relay (relaytype_i32 relay_data) (
          host.relay_msg.encode
            (record { session_id = caller.id; payload = frame (b ∷ sealed) })) in
      let roomy : into_buf (sized msg) buf ≡ some (filled (sized msg) buf) =
        into_buf-fits (sized msg) buf
          (omega (arith, length-append (be_bytes 4 (length msg)) msg)) in
      let behind = drop (length (sized msg)) buf in
      (
        rw found (
            rw shaken (
              rw encrypted (
                rw (write_relay_arc-done host caller.out_stream relay tick rest w next ticks, ◌>>=◌)
                  refl))),
        rw shaken' (
            rw next' (
              rw arrives (
                rw (deframe-frame (b ∷ sealed) fits bytes).0 (
                  rw decrypted (
                    rw roomy (
                      rw (be_u32-sized msg behind short)
                        (rw (after_size-sized msg behind) refl))))))),
      )
