-- ===== src/Proxy/Refusals.antt =====
-- network/proxy_event_handler.rs: requests that come to nothing.
use white_noise_rs.Prelude.{
  ◌≡◌, refl, Bool, false, ◌&&◌, none, some, List, ℕ, ◌∷◌, [], string_eq, arith, ℕ_eq,
}
use white_noise_rs.HashMap.{get, contains_key}
use white_noise_rs.Proto.{Request, NewCircuit, Decrypt}
use white_noise_rs.Host.{Host, PeerId}
use white_noise_rs.State.{}
use white_noise_rs.Task.{World, done, pure, ◌>>=◌}
use white_noise_rs.Proxy.{start_circuit}
use white_noise_rs.Proxy.Registry.{answer}
use white_noise_rs.Proxy.Clients.{answer_effect}
use white_noise_rs.Proxy.Circuit.{has_room, handle_new_circuit}
use white_noise_rs.Proxy.Gossip.{decrypt_with, decrypt_gossip}

-- The client on whose behalf the circuit is asked for is registered, and its session has one stream.
abbrev pub may_start : World → NewCircuit → Bool
may_start w msg =
    contains_key w.shared.client_wn_map msg.from
    && has_room (get w.shared.session_map msg.session_id)

-- A circuit is refused with one negative ack and no other effect, no change of the shared maps and no wait,
-- where its caller is not registered at this node or the caller's session is missing or full.
pub start_circuit_refuses :
    (host : Host) (peer : PeerId) (request : Request) (msg : NewCircuit) (w : World)
    → host.new_circuit.decode request.payload ≡ some msg
    → may_start w msg ≡ false
    → start_circuit host peer request w ≡ (
      done tt,
      record w {
        out =
            answer_effect peer
              (record { command_id = request.req_id; result = false; payload = [] })
            ∷ w.out;
      },
    )
unfolding start_circuit handle_new_circuit answer ◌>>=◌
start_circuit_refuses host peer request msg w decodes h = rw decodes (ground arith)

-- A client that can decrypt a gossip message, but finds no negotiation in it, does nothing: the access node
-- that asked it gets no ack, a negative one neither.
pub decrypt_gossip_silent :
    (host : Host) (peer : PeerId) (request : Request) (msg : Decrypt) (plain_text : List ℕ)
    (w : World)
    → host.decrypt.decode request.payload ≡ some msg
    → decrypt_with host w.local.keypair msg.cypher ≡ some plain_text
    → host.negotiate.decode plain_text ≡ none
    → decrypt_gossip host peer request w ≡ (done tt, w)
unfolding decrypt_gossip ◌>>=◌ pure
decrypt_gossip_silent host peer request msg plain_text w decodes decrypts no_negotiate =
    rw decodes (rw decrypts (rw no_negotiate refl))
