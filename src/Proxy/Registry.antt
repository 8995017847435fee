-- ===== src/Proxy/Registry.antt =====
-- network/proxy_event_handler.rs: clients that register with this node, unregister, or disconnect.
use white_noise_rs.Prelude.{String, true, false, Option, none, some, [], as_bytes, string_eq}
use white_noise_rs.HashMap.{get, insert, remove}
use white_noise_rs.Proto.{Request, NewProxy, Ack}
use white_noise_rs.Host.{Host, PeerId, to_base58}
use white_noise_rs.State.{ClientInfo, Shared, ack_request}
use white_noise_rs.Task.{
  Task, node_request, pure, unwrap, reads, modify, modifies, emit, ◌>>=◌, ◌>>◌,
}
use white_noise_rs.Utils.Ids.{from_whitenoise_to_hash}

unfoldable pub answer : PeerId → Ack → Task (Unit {0})
answer peer ack =
    emit (node_request (ack_request (record { remote_peer_id = peer; ack_request = some ack })))

abbrev pub take_peer : String → Shared → Option String × Shared
take_peer peer s =
    (get s.client_peer_map peer, record s { client_peer_map = remove s.client_peer_map peer })

abbrev pub forget_hash : Option String → Task (Unit {0})
forget_hash none = pure tt
forget_hash (some hash) = modify (λ s. record s { client_wn_map = remove s.client_wn_map hash })

module _ (host : Host) where
  -- What a disconnected peer and an UnRegisterType request have in common.
  unfoldable pub unregister : PeerId → Task (Unit {0})
  unregister peer = do
    hash_option ← modifies (take_peer (to_base58 host peer))
    forget_hash hash_option

  abbrev pub client_of : PeerId → NewProxy → ClientInfo
  client_of peer msg = record {
    whitenoise_id = msg.white_noise_id;
    peer_id = peer;
    state = 1;
    time = 3600;
  }

  abbrev pub register_hash :
      PeerId → Request → NewProxy → String → Option ClientInfo → Task (Unit {0})
  register_hash peer request msg hash (some client_info) =
      answer peer
        (record { command_id = request.req_id; result = false; payload = as_bytes "Proxy already" })
  register_hash peer request msg hash none = do
    modify (λ s. record s { client_peer_map = insert s.client_peer_map (to_base58 host peer) hash })
    modify (λ s. record s { client_wn_map = insert s.client_wn_map hash (client_of peer msg) })
    answer peer (record { command_id = request.req_id; result = true; payload = [] })

  unfoldable pub register : PeerId → Request → Task (Unit {0})
  register peer request = do
    msg ← unwrap (host.new_proxy.decode request.payload)
    hash ← unwrap (from_whitenoise_to_hash host msg.white_noise_id)
    find ← reads (λ s. get s.client_wn_map hash)
    register_hash peer request msg hash find
