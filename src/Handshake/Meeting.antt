-- ===== src/Handshake/Meeting.antt =====
-- network/relay_event_handler.rs: the two ends of a circuit run process_handshake with each other.
use white_noise_rs.Prelude.{
  ℕ, suc, String, ◌≡◌, ◌<◌, refl, true, false, some, List, [], ◌∷◌, length, All, string_eq,
}
use white_noise_rs.HashMap.{insert}
use white_noise_rs.Proto.{NoiseHandshakePayload}
use white_noise_rs.Host.{Host}
use white_noise_rs.State.{CircuitConn}
use white_noise_rs.Task.{Input, World, done, elapsed, circuit_data, ◌>>=◌}
use white_noise_rs.Utils.Payload.{frame}
use white_noise_rs.Utils.Framing.{IsByte}
use white_noise_rs.Utils.Sending.{sent}
use white_noise_rs.Handshake.{
  Noise, AuthenticKeypair, KeypairIdentity, new_noise_keys, initiate_handshake, respond_handshake,
  process_handshake,
}
use white_noise_rs.Handshake.Steps.{
  shake_relay, taken, write_shake-done, next_shake-done, check_remote-done, generate-done,
}

-- The payload of a handshake that an identity gives.
abbrev pub signed_payload : KeypairIdentity → List ℕ → NoiseHandshakePayload
signed_payload identity signature = record {
  identity_key = identity.public;
  identity_sig = signature;
}

-- The circuit has its transport state.
abbrev pub shaken : CircuitConn → String → ℕ → World → World
shaken c id state w = record w {
  shared = record w.shared {
    circuit_map = insert w.shared.circuit_map id (record c { transport_state = some state });
  };
}

abbrev pub seeded : World → World
seeded w = record w { drawn = suc w.drawn }

module _ {S : Type 0} (host : Host) (noise : Noise S) where
  -- What the initiator leaves: two messages sent, with one received in between.
  abbrev pub initiated :
      CircuitConn → String → ℕ → List ℕ → List ℕ → Input → Input → Input → World → World
  initiated c id state first third tick arrival tick' w = shaken c id state (
      sent host c.out_stream (shake_relay host id third) tick' [] (
        taken arrival (tick' ∷ []) (
          sent host c.out_stream (shake_relay host id first) tick (arrival ∷ tick' ∷ [])
            (seeded w))))

  -- What the responder leaves: one message sent, between two received.
  abbrev pub responded : CircuitConn → String → ℕ → List ℕ → Input → Input → Input → World → World
  responded c id state second arrival tick arrival' w = shaken c id state (
      taken arrival' [] (
        sent host c.out_stream (shake_relay host id second) tick (arrival' ∷ [])
          (taken arrival (tick ∷ arrival' ∷ []) (seeded w))))

module _ {S : Type 0} (host : Host) (noise : Noise S) (id : String) (caller answer : CircuitConn)
    (keys keys' : AuthenticKeypair) (signature signature' remote remote' key key' : List ℕ)
    (i0 i1 i2 i3 r0 r1 r2 r3 : S) (state state' b1 b2 b3 : ℕ) (m1 m2 m3 nil : List ℕ) (w v : World)
    (tick tick' tick'' arrival arrival' arrival'' : Input)
    -- each end has its keys, and a noise state to start with
    (keyed : noise.into_authentic (w.entropy w.drawn) w.local.keypair ≡ some keys)
    (keyed' : noise.into_authentic (v.entropy v.drawn) v.local.keypair ≡ some keys')
    (signs : keys.identity.signature ≡ some signature)
    (signs' : keys'.identity.signature ≡ some signature')
    (starts : noise.build_initiator keys.secret ≡ some i0)
    (starts' : noise.build_responder keys'.secret ≡ some r0)
    -- the messages that one end's noise state writes are read by the other's
    (writes1 : noise.write_message i0 [] ≡ some (b1 ∷ m1, i1))
    (reads1 : noise.read_message r0 (b1 ∷ m1) ≡ some (nil, r1))
    (writes2 : noise.write_message r1
        (noise.payload.encode (signed_payload keys'.identity signature'))
      ≡ some (b2 ∷ m2, r2))
    (reads2 : noise.read_message i1 (b2 ∷ m2)
      ≡ some (noise.payload.encode (signed_payload keys'.identity signature'), i2))
    (writes3 : noise.write_message i2
        (noise.payload.encode (signed_payload keys.identity signature))
      ≡ some (b3 ∷ m3, i3))
    (reads3 : noise.read_message r2 (b3 ∷ m3)
      ≡ some (noise.payload.encode (signed_payload keys.identity signature), r3))
    (transports : noise.into_transport_mode i3 ≡ some state)
    (transports' : noise.into_transport_mode r3 ≡ some state')
    -- the payloads decode, and the keys in them are keys
    (remote_of : noise.get_remote_static i2 ≡ some remote)
    (remote_of' : noise.get_remote_static r3 ≡ some remote')
    (decodes : noise.payload.decode
        (noise.payload.encode (signed_payload keys'.identity signature'))
      ≡ some (signed_payload keys'.identity signature'))
    (decodes' : noise.payload.decode (noise.payload.encode (signed_payload keys.identity signature))
      ≡ some (signed_payload keys.identity signature))
    (valid : noise.valid_public_key keys'.identity.public ≡ some key)
    (valid' : noise.valid_public_key keys.identity.public ≡ some key')
    -- the messages are bytes, and short enough for their frame
    (short1 : length (b1 ∷ m1) < 65536) (short2 : length (b2 ∷ m2) < 65536)
    (short3 : length (b3 ∷ m3) < 65536) (bytes1 : All IsByte (b1 ∷ m1))
    (bytes2 : All IsByte (b2 ∷ m2)) (bytes3 : All IsByte (b3 ∷ m3))
    -- the delays pass, and the frames arrive
    (inputs : w.inputs ≡ tick ∷ arrival ∷ tick' ∷ [])
    (inputs' : v.inputs ≡ arrival' ∷ tick'' ∷ arrival'' ∷ []) (ticks : tick.answer ≡ elapsed)
    (ticks' : tick'.answer ≡ elapsed) (ticks'' : tick''.answer ≡ elapsed)
    (arrives : arrival.answer ≡ circuit_data (some (frame (b2 ∷ m2))))
    (arrives' : arrival'.answer ≡ circuit_data (some (frame (b1 ∷ m1))))
    (arrives'' : arrival''.answer ≡ circuit_data (some (frame (b3 ∷ m3)))) where
  -- The caller sends the first and the third message of the handshake and the answer the second, each framed
  -- as the data of a relay message of the circuit. Where each noise state reads what the other writes and the
  -- payloads hold valid keys, both tasks end, and each end's circuit stands under the session's id
  -- with the transport state of its own noise state.
  pub handshake_meets :
      (process_handshake host noise caller true id w
        ≡ (done tt, initiated host noise caller id state (b1 ∷ m1) (b3 ∷ m3) tick arrival tick' w))
      × (process_handshake host noise answer false id v
          ≡ (done tt, responded host noise answer id state' (b2 ∷ m2) arrival' tick'' arrival'' v))
  unfolding process_handshake initiate_handshake respond_handshake new_noise_keys ◌>>=◌
  handshake_meets = (initiator, responder)
    where
      initiator :
          initiate_handshake host noise caller id w
          ≡ (done tt, initiated host noise caller id state (b1 ∷ m1) (b3 ∷ m3) tick arrival tick' w)
      initiator =
          let w1 =
            sent host caller.out_stream (shake_relay host id (b1 ∷ m1)) tick (arrival ∷ tick' ∷ [])
              (seeded w) in
          let w2 = taken arrival (tick' ∷ []) w1 in
          let theirs = signed_payload keys'.identity signature' in
          let ours = noise.payload.encode (signed_payload keys.identity signature) in
          rw keyed (
            rw starts (
              rw
                (
                  write_shake-done host noise caller id i0 i1 [] m1 b1 tick (arrival ∷ tick' ∷ [])
                      (seeded w) writes1 inputs ticks,
                  ◌>>=◌,
                )
                (rw
                  (
                    next_shake-done noise i1 i2 (b2 ∷ m2) (noise.payload.encode theirs) arrival
                        (tick' ∷ []) w1 short2 bytes2 reads2 refl arrives,
                    ◌>>=◌,
                  )
                  (rw
                    (
                      check_remote-done noise (noise.payload.encode theirs) remote key i2 theirs w2
                          remote_of decodes valid,
                      ◌>>=◌,
                    )
                    (rw (generate-done noise keys.identity signature w2 signs, ◌>>=◌)
                      (rw
                        (
                          write_shake-done host noise caller id i2 i3 ours m3 b3 tick' [] w2 writes3
                              refl ticks',
                          ◌>>=◌,
                        )
                        (rw transports refl)))))))

      responder :
          respond_handshake host noise answer id v
          ≡ (done tt, responded host noise answer id state' (b2 ∷ m2) arrival' tick'' arrival'' v)
      responder =
          let v1 = taken arrival' (tick'' ∷ arrival'' ∷ []) (seeded v) in
          let v2 =
            sent host answer.out_stream (shake_relay host id (b2 ∷ m2)) tick'' (arrival'' ∷ [])
              v1 in
          let v3 = taken arrival'' [] v2 in
          let theirs = signed_payload keys.identity signature in
          let ours = noise.payload.encode (signed_payload keys'.identity signature') in
          rw keyed' (
            rw signs' (
              rw starts' (
                rw
                  (
                    next_shake-done noise r0 r1 (b1 ∷ m1) nil arrival' (tick'' ∷ arrival'' ∷ [])
                        (seeded v) short1 bytes1 reads1 inputs' arrives',
                    ◌>>=◌,
                  )
                  (rw
                    (
                      generate-done noise
                          (record { public = keys'.identity.public; signature = some signature' })
                          signature' v1 refl,
                      ◌>>=◌,
                    )
                    (rw
                      (
                        write_shake-done host noise answer id r1 r2 ours m2 b2 tick''
                            (arrival'' ∷ []) v1 writes2 refl ticks'',
                        ◌>>=◌,
                      )
                      (rw
                        (
                          next_shake-done noise r2 r3 (b3 ∷ m3) (noise.payload.encode theirs)
                              arrival'' [] v2 short3 bytes3 reads3 refl arrives'',
                          ◌>>=◌,
                        )
                        (rw
                          (
                            check_remote-done noise (noise.payload.encode theirs) remote' key' r3
                                theirs v3 remote_of' decodes' valid',
                            ◌>>=◌,
                          )
                          (rw transports' refl))))))))
