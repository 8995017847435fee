-- ===== src/Handshake/Steps.antt =====
-- The steps of process_handshake, each with what it leaves.
use white_noise_rs.Prelude.{ℕ, String, ◌≡◌, ◌<◌, refl, some, List, ◌∷◌, ◌++◌, length, All}
use white_noise_rs.Proto.{Relay, NoiseHandshakePayload, relaytype_i32, relay_data}
use white_noise_rs.Host.{Host}
use white_noise_rs.State.{CircuitConn}
use white_noise_rs.Task.{Input, World, done, elapsed, circuit_data, wait_for, expect, ◌>>=◌}
use white_noise_rs.Utils.Payload.{frame, frame_arc, write_payload_arc}
use white_noise_rs.Utils.Framing.{IsByte, deframe-frame}
use white_noise_rs.Utils.Write.{new_relay}
use white_noise_rs.Utils.Sending.{sent, write_relay_arc-done}
use white_noise_rs.Handshake.{
  Noise, KeypairIdentity, static_key_prefix, handle_remote_handshake_payload,
  generate_handshake_payload, handle_read_shake, next_shake, check_remote, write_shake,
  write_handshake_payload_arc,
}

-- A message of the handshake as a relay message of the circuit.
abbrev pub shake_relay : Host → String → List ℕ → Relay
shake_relay host session_id message =
    new_relay (relaytype_i32 relay_data)
      (host.relay_msg.encode (record { session_id = session_id; payload = frame message }))

-- The world after an input has been taken.
abbrev pub taken : Input → List Input → World → World
taken i rest w = record w { shared = i.others w.shared; inputs = rest; seen = w.shared ∷ w.seen }

module _ {S : Type 0} (host : Host) (noise : Noise S) where
  pub write_shake-done :
      (c : CircuitConn) (session_id : String) (state after : S) (payload message : List ℕ) (b : ℕ)
      (tick : Input) (rest : List Input) (w : World)
      → noise.write_message state payload ≡ some (b ∷ message, after)
      → w.inputs ≡ tick ∷ rest
      → tick.answer ≡ elapsed
      → write_shake host noise c session_id state payload w ≡ (
        done after,
        sent host c.out_stream (shake_relay host session_id (b ∷ message)) tick rest w,
      )
  unfolding write_handshake_payload_arc write_payload_arc frame_arc ◌>>=◌
  write_shake-done c session_id state after payload message b tick rest w e is a = rw e (
      rw
        (
          write_relay_arc-done host c.out_stream (shake_relay host session_id (b ∷ message)) tick
              rest w is a,
          ◌>>=◌,
        )
        refl)

module _ {S : Type 0} (noise : Noise S) where
  pub next_shake-done :
      (state after : S) (message payload : List ℕ) (arrival : Input) (rest : List Input) (w : World)
      → length message < 65536
      → All IsByte message
      → noise.read_message state message ≡ some (payload, after)
      → w.inputs ≡ arrival ∷ rest
      → arrival.answer ≡ circuit_data (some (frame message))
      → next_shake noise state w ≡ (done (payload, after), taken arrival rest w)
  unfolding handle_read_shake wait_for expect ◌>>=◌
  next_shake-done state after message payload arrival rest w short bytes e is a =
      rw is (rw a (rw (deframe-frame message short bytes).0 (rw e refl)))

  pub check_remote-done :
      (payload remote key : List ℕ) (state : S) (m : NoiseHandshakePayload) (w : World)
      → noise.get_remote_static state ≡ some remote
      → noise.payload.decode payload ≡ some m
      → noise.valid_public_key m.identity_key ≡ some key
      → check_remote noise payload state w
        ≡ (done (noise.verify key (static_key_prefix ++ remote) m.identity_sig), w)
  unfolding handle_remote_handshake_payload ◌>>=◌
  check_remote-done payload remote key state m w r d k = rw r (rw d (rw k refl))

  pub generate-done :
      (identity : KeypairIdentity) (signature : List ℕ) (w : World)
      → identity.signature ≡ some signature
      → generate_handshake_payload noise identity w ≡ (
        done (
            noise.payload.encode
              (record { identity_key = identity.public; identity_sig = signature })),
        w,
      )
  unfolding generate_handshake_payload ◌>>=◌
  generate-done identity signature w e = rw e refl
