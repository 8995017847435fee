-- ===== src/Invariant/Handshakes.antt =====
-- network/relay_event_handler.rs: process_handshake keeps the invariant, once its circuit's channel has
-- been made.
use white_noise_rs.Prelude.{ℕ, suc, String, true, false, Bool, List, some, arith, string_eq}
use white_noise_rs.HashMap.{insert, get-insert}
use white_noise_rs.Host.{Host}
use white_noise_rs.State.{CircuitConn, Shared}
use white_noise_rs.Task.Keeps.{Keeps, keeps_rules, Keeps-modify, Keeps-bind, Keeps-unwrap}
use white_noise_rs.Utils.Payload.{write_payload_arc}
use white_noise_rs.Utils.Keeping.{keeping}
use white_noise_rs.Handshake.{
  Noise, KeypairIdentity, handle_remote_handshake_payload, generate_handshake_payload,
  handle_read_shake, next_shake, new_noise_keys, check_remote, finish, write_shake,
  write_handshake_payload_arc, initiate_handshake, respond_handshake, process_handshake,
}
use white_noise_rs.Invariant.Updates.{Fits}

module _ {S : Type 0} (noise : Noise S) {P : Shared → Type 0} where
  check_remote-Keeps : (payload : List ℕ) (state : S) → Keeps P (check_remote noise payload state)
  unfolding handle_remote_handshake_payload
  check_remote-Keeps payload state = search keeps_rules

  generate-Keeps :
      (identity : KeypairIdentity) → Keeps P (generate_handshake_payload noise identity)
  unfolding generate_handshake_payload
  generate-Keeps identity = search keeps_rules

  next_shake-Keeps : (state : S) → Keeps P (next_shake noise state)
  unfolding handle_read_shake
  next_shake-Keeps state = search keeps_rules

  new_noise_keys-Keeps : Keeps P (new_noise_keys noise)
  unfolding new_noise_keys
  new_noise_keys-Keeps = search keeps_rules

module _ {S : Type 0} (host : Host) (noise : Noise S) {P : Shared → Type 0} where
  write_shake-Keeps :
      (c : CircuitConn) (id : String) (state : S) (payload : List ℕ)
      → Keeps P (write_shake host noise c id state payload)
  unfolding write_handshake_payload_arc write_payload_arc
  write_shake-Keeps c id state payload = search keeping depth 12

module _ {S : Type 0} (host : Host) (noise : Noise S) (c : CircuitConn) where
  shaken-Fits :
      (state : ℕ) (s : Shared)
      → Fits host (suc c.channel) s
      → Fits host (suc c.channel) (record s {
        circuit_map = insert s.circuit_map c.id (record c { transport_state = some state });
      })
  shaken-Fits state s h = record {
    sessions = h.sessions;
    circuits = λ k x p. ground (
      arith,
      get-insert s.circuit_map c.id k (record c { transport_state = some state }),
      string_eq.agrees c.id k,
      h.circuits k x,
      h.channels,
    );
    probes = h.probes;
    clients = h.clients;
    channels = h.channels;
  }

  finish-Keeps : (state : S) → Keeps (Fits host (suc c.channel)) (finish noise c c.id state)
  finish-Keeps state =
      Keeps-bind _ _ (Keeps-unwrap _) (λ t. Keeps-modify _ (λ s h. shaken-Fits t s h))

  ruleset shake_rules = (
    keeps_rules, finish-Keeps, write_shake-Keeps, check_remote-Keeps, generate-Keeps,
    next_shake-Keeps, new_noise_keys-Keeps,
  )

  pub process_handshake-Keeps :
      (initiate : Bool)
      → Keeps (Fits host (suc c.channel)) (process_handshake host noise c initiate c.id)
  unfolding process_handshake initiate_handshake respond_handshake
  process_handshake-Keeps true = search shake_rules depth 24
  process_handshake-Keeps false = search shake_rules depth 24
