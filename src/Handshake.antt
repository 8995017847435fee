-- ===== src/Handshake.antt =====
-- network/relay_event_handler.rs: process_handshake, which the ends of a circuit run to agree on its keys,
-- with the functions of network/utils.rs for the payloads of a handshake.
pub mod Steps
pub mod Meeting
pub mod Unverified
use white_noise_rs.Prelude.{
  string_eq, ℕ, String, as_bytes, Bool, Option, some, List, [], ◌++◌, if◌then◌else◌,
}
use white_noise_rs.HashMap.{insert}
use white_noise_rs.Proto.{NoiseHandshakePayload}
use white_noise_rs.Host.{Codec, Host, Keypair}
use white_noise_rs.State.{WrappedStream, CircuitConn}
use white_noise_rs.Task.{Task, pure, unwrap, asks, modify, draw, next_circuit_data, ◌>>=◌, ◌>>◌}
use white_noise_rs.Utils.Payload.{deframe, write_payload_arc}

-- libp2p's KeypairIdentity: the encoding of the public key, and the signature.
pub record KeypairIdentity : Type 0 where
  pub public : List ℕ
  pub signature : Option (List ℕ)

-- libp2p's noise keys for one handshake, signed by the node's keypair.
pub record AuthenticKeypair : Type 0 where
  pub public : List ℕ
  pub secret : List ℕ
  pub identity : KeypairIdentity

-- The noise libraries: `S` is a HandshakeState; a TransportState behind its Arc is the number that
-- names it. `none` is an error.
pub record Noise (S : Type 0) : Type 0 where
  -- noise::Keypair::new, from what the random generator gives, and into_authentic
  pub into_authentic : ℕ → Keypair → Option AuthenticKeypair
  pub build_initiator : List ℕ → Option S
  pub build_responder : List ℕ → Option S
  -- the message, or the payload, and the next state
  pub write_message : S → List ℕ → Option (List ℕ × S)
  pub read_message : S → List ℕ → Option (List ℕ × S)
  pub get_remote_static : S → Option (List ℕ)
  pub into_transport_mode : S → Option ℕ
  pub payload : Codec NoiseHandshakePayload
  -- identity::PublicKey: is the encoding one of a key, and does the key accept the signature?
  pub valid_public_key : List ℕ → Option (List ℕ)
  pub verify : List ℕ → List ℕ → List ℕ → Bool

abbrev pub static_key_prefix : List ℕ
static_key_prefix = as_bytes "noise-libp2p-static-key:"

module _ {S : Type 0} (noise : Noise S) where
  unfoldable pub handle_remote_handshake_payload : List ℕ → List ℕ → Task Bool
  handle_remote_handshake_payload payload remote_static = do
    m ← unwrap (noise.payload.decode payload)
    id_pub_key ← unwrap (noise.valid_public_key m.identity_key)
    pure (noise.verify id_pub_key (static_key_prefix ++ remote_static) m.identity_sig)

  unfoldable pub generate_handshake_payload : KeypairIdentity → Task (List ℕ)
  generate_handshake_payload identity = do
    signature ← unwrap identity.signature
    pure
        (noise.payload.encode (record { identity_key = identity.public; identity_sig = signature }))

  unfoldable pub handle_read_shake : List ℕ → S → Task (List ℕ × S)
  handle_read_shake message state = do
    payload ← unwrap (deframe message)
    unwrap (noise.read_message state payload)

  -- The next message of the circuit's channel, read.
  abbrev pub next_shake : S → Task (List ℕ × S)
  next_shake state = do
    received ← next_circuit_data
    message ← unwrap received
    handle_read_shake message state

  unfoldable pub new_noise_keys : Task AuthenticKeypair
  new_noise_keys = do
    keypair ← asks (λ l. l.keypair)
    seed ← draw
    unwrap (noise.into_authentic seed keypair)

  -- The remote's payload is checked; what comes of it is only logged.
  abbrev pub check_remote : List ℕ → S → Task Bool
  check_remote payload state = do
    pubkey ← unwrap (noise.get_remote_static state)
    handle_remote_handshake_payload payload pubkey

  -- The circuit gets its transport state, under this id.
  abbrev pub finish : CircuitConn → String → S → Task (Unit {0})
  finish circuit_conn session_id state = do
    transport ← unwrap (noise.into_transport_mode state)
    modify (λ s. record s {
      circuit_map =
          insert s.circuit_map session_id
            (record circuit_conn { transport_state = some transport });
    })

module _ {S : Type 0} (host : Host) (noise : Noise S) where
  unfoldable pub write_handshake_payload_arc : WrappedStream → List ℕ → String → Task (Unit {0})
  write_handshake_payload_arc stream buf session_id = write_payload_arc host stream buf session_id

  -- A payload goes out as the next message of the handshake.
  abbrev pub write_shake : CircuitConn → String → S → List ℕ → Task S
  write_shake circuit_conn session_id state payload = do
    message ← unwrap (noise.write_message state payload)
    write_handshake_payload_arc circuit_conn.out_stream message.0 session_id
    pure message.1

  unfoldable pub initiate_handshake : CircuitConn → String → Task (Unit {0})
  initiate_handshake circuit_conn session_id = do
    noise_keys ← new_noise_keys noise
    start ← unwrap (noise.build_initiator noise_keys.secret)
    sent_nil ← write_shake circuit_conn session_id start []
    answer ← next_shake noise sent_nil
    verify_success ← check_remote noise answer.0 answer.1
    payload ← generate_handshake_payload noise noise_keys.identity
    shaken ← write_shake circuit_conn session_id answer.1 payload
    finish noise circuit_conn session_id shaken

  unfoldable pub respond_handshake : CircuitConn → String → Task (Unit {0})
  respond_handshake circuit_conn session_id = do
    noise_keys ← new_noise_keys noise
    own_signature ← unwrap noise_keys.identity.signature
    start ← unwrap (noise.build_responder noise_keys.secret)
    nil ← next_shake noise start
    payload ← generate_handshake_payload noise noise_keys.identity
    answered ← write_shake circuit_conn session_id nil.1 payload
    answer ← next_shake noise answered
    verify_success ← check_remote noise answer.0 answer.1
    finish noise circuit_conn session_id answer.1

  unfoldable pub process_handshake : CircuitConn → Bool → String → Task (Unit {0})
  process_handshake circuit_conn initiate session_id =
      if initiate
      then initiate_handshake circuit_conn session_id
      else respond_handshake circuit_conn session_id
