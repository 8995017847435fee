-- ===== src/Client.antt =====
-- network/node.rs: what a client's node asks of others: the list of nodes, a proxy, a circuit.
pub mod Calls
use white_noise_rs.Prelude.{
  ℕ, zero, suc, ◌+◌, ◌*◌, ◌/◌, ◌%◌, ◌^◌, String, Bool, true, false, Option, none, some, List, [],
  ◌∷◌, ◌++◌, as_bytes, split_at_one, string_eq, if◌then◌else◌,
}
use mathlib.Core.Option
use white_noise_rs.HashMap.{insert}
use white_noise_rs.Proto.{
  Request, NewCircuit, NewProxy, MainNetPeers, PeersList, NodeInfo, reqtype_i32, new_proxy,
  main_net_peers, Reqtype,
}
use white_noise_rs.Host.{Host, PeerId}
use white_noise_rs.State.{
  WrappedStream, CircuitConn, Shared, NodeProxyRequest, proxy_request, add_peer_addresses_request,
  role_i32, caller_role, entry_role,
}
use white_noise_rs.Task.{
  Task, node_request, pure, panic, unwrap, asks, modify, modify_local, emit, draw, ◌>>=◌, ◌>>◌,
}
use white_noise_rs.Utils.Ids.{from_request_get_id, from_whitenoise_to_hash}
use white_noise_rs.Node.Requests.{get_id, external_send_node_request_and_wait}
use white_noise_rs.Node.Sessions.{new_session_to_peer}
use white_noise_rs.Account.{from_keypair_to_whitenoise_id}
use white_noise_rs.Peers.{peer_of_text}

-- The last so many bytes of a big-endian number.
abbrev pub be_bytes : ℕ → ℕ → List ℕ
be_bytes zero n = []
be_bytes (suc k) n = (n / 256 ^ k % 256) ∷ be_bytes k n

-- A node proxy request with a request in it, whose id is the hash of its encoding.
abbrev pub keyed_request : PeerId → Request → String → NodeProxyRequest
keyed_request peer request key = record {
  remote_peer_id = peer;
  proxy_request = some (record request { req_id = key });
  peer_operation = none;
}

-- The caller's end of a circuit, which takes the place of one that is there.
abbrev pub dial_circuit : String → WrappedStream → Shared → Shared
dial_circuit session_id stream s = record s {
  circuit_map = insert s.circuit_map session_id (record {
    id = session_id;
    out_stream = stream;
    channel = s.next_channel;
    transport_state = none;
  });
  next_channel = suc s.next_channel;
}

module _ (host : Host) where
  -- `x.parse().unwrap()` of every address; `none` is a panic.
  unfoldable pub parsed : List String → Option (List String)
  parsed [] = some []
  parsed (a ∷ l) =
      let rest = parsed l in if host.valid_addr a then Option.map (λ m. a ∷ m) rest else none

  abbrev pub learn_peer : NodeInfo → List String → Task (Unit {0})
  learn_peer peer [] = pure tt
  learn_peer peer (a ∷ l) = do
    remote_addr ← unwrap (parsed (a ∷ l))
    remote_peer_id ← unwrap (peer_of_text host peer.id)
    emit (
        node_request (
          add_peer_addresses_request
            (record { remote_peer_id = remote_peer_id; remote_addr = remote_addr })))

  -- Peers without an address are left out.
  unfoldable pub with_address : List NodeInfo → List NodeInfo
  with_address [] = []
  with_address (peer ∷ peers) = elim peer.addr [
    | [] ↦ with_address peers
    | a ∷ l ↦ peer ∷ with_address peers
  ]

  unfoldable pub learn_peers : List NodeInfo → Task (Unit {0})
  learn_peers [] = pure tt
  learn_peers (peer ∷ peers) = do learn_peer peer peer.addr; learn_peers peers

  unfoldable pub get_main_nets : ℕ → PeerId → String → Task PeersList
  get_main_nets cnt remote_peer_id remote_peer_addr = do
    emit (
        node_request (
          add_peer_addresses_request
            (record { remote_peer_id = remote_peer_id; remote_addr = remote_peer_addr ∷ [] })))
    let request : Request = record {
      req_id = "";
      from = "";
      reqtype = reqtype_i32 main_net_peers;
      payload = host.main_net_peers.encode (record { max = cnt });
    }
    let key = from_request_get_id host request
    ack ←
        external_send_node_request_and_wait key
          (proxy_request (keyed_request remote_peer_id request key))
    peer_list ← unwrap (host.peers_list.decode ack.payload)
    learn_peers peer_list.peers
    pure (record { peers = with_address peer_list.peers })

  abbrev pub accept_proxy : Bool → PeerId → Task Bool
  accept_proxy true remote_peer_id = do
    modify_local (λ l. record l { proxy_id = some remote_peer_id })
    pure true
  accept_proxy false remote_peer_id = pure false

  unfoldable pub register_proxy : PeerId → Task Bool
  register_proxy remote_peer_id = do
    keypair ← asks (λ l. l.keypair)
    white_noise_id ← unwrap (from_keypair_to_whitenoise_id host keypair)
    own ← asks (get_id host)
    let request : Request = record {
      req_id = "";
      from = own;
      reqtype = reqtype_i32 new_proxy;
      payload = host.new_proxy.encode (record { time = "60m"; white_noise_id = white_noise_id });
    }
    let key = from_request_get_id host request
    ack ←
        external_send_node_request_and_wait key
          (proxy_request (keyed_request remote_peer_id request key))
    accept_proxy ack.result remote_peer_id

  unfoldable pub new_circuit : String → String → String → String → PeerId → Task (Unit {0})
  new_circuit remote_whitenoise_id local_white_noise_id local_peer_id session_id proxy_id = do
    from_ ← unwrap (from_whitenoise_to_hash host local_white_noise_id)
    to ← unwrap (from_whitenoise_to_hash host remote_whitenoise_id)
    let request : Request = record {
      req_id = "";
      from = local_peer_id;
      reqtype = reqtype_i32 Reqtype.new_circuit;
      payload = host.new_circuit.encode (record { from = from_; to = to; session_id = session_id });
    }
    let key = from_request_get_id host request
    external_send_node_request_and_wait key (proxy_request (keyed_request proxy_id request key))
    pure tt

  -- The clock, in microseconds, is one of the numbers that the task draws.
  unfoldable pub generate_session_id : String → String → Task String
  generate_session_id remote_id local_id = do
    now ← draw
    pure
        (host.bs58_encode (host.sha256 (as_bytes local_id ++ as_bytes remote_id ++ be_bytes 8 now)))

  unfoldable pub dial : String → Task String
  dial remote_whitenoise_id = do
    keypair ← asks (λ l. l.keypair)
    local_whitenoise_id ← unwrap (from_keypair_to_whitenoise_id host keypair)
    session_id ← generate_session_id remote_whitenoise_id local_whitenoise_id
    parts ← unwrap (split_at_one remote_whitenoise_id)
    pub_bytes ← unwrap (host.bs58_decode parts.1)
    modify (λ s. record s { circuit_task = insert s.circuit_task session_id (parts.0 ∷ pub_bytes) })
    proxy_opt ← asks (λ l. l.proxy_id)
    proxy_id ← unwrap proxy_opt
    stream_opt ←
        new_session_to_peer host proxy_id session_id (role_i32 caller_role) (role_i32 entry_role)
    stream ← unwrap stream_opt
    modify (dial_circuit session_id stream)
    own ← asks (get_id host)
    new_circuit remote_whitenoise_id local_whitenoise_id own session_id proxy_id
    pure session_id
