-- ===== src/Proxy/Circuit.antt =====
-- network/proxy_event_handler.rs: handle_new_circuit, which makes this node the entry of a circuit.
use white_noise_rs.Prelude.{
  String, Bool, true, false, not, Option, none, some, List, [], string_eq, if◌then◌else◌,
}
use white_noise_rs.HashMap.{get, empty, contains_key}
use white_noise_rs.Proto.{Request, NewCircuit, NodeInfo, reqtype_i32, neg_plain_text}
use white_noise_rs.Host.{Host, PeerId, to_base58}
use white_noise_rs.State.{
  WrappedStream, ClientInfo, Session, get_main_nets_request, proxy_request, publish_data, role_i32,
  entry_role, sink_role, access_role, answer_role, ready,
}
use white_noise_rs.Task.{
  Task, node_request, pure, unwrap, reads, asks, emit, new_channel, await_node_infos,
  await_published, ◌>>=◌, ◌>>◌,
}
use white_noise_rs.Utils.Ids.{from_request_get_id}
use white_noise_rs.Utils.Write.{new_relay_circuit_success, new_relay_probe}
use white_noise_rs.Utils.Forward.{send_relay_twoway}
use white_noise_rs.Node.Sessions.{new_session_to_peer, handle_close_session}
use white_noise_rs.Node.Requests.{get_id, external_send_node_request_and_wait}
use white_noise_rs.Peers.{random_peer, try_peers}

-- `empty_or_full_check`: the caller's session is there and has one stream.
abbrev pub has_room : Option Session → Bool
has_room none = false
has_room (some session) = not (ready session)

module _ (host : Host) where
  abbrev pub both_ways : Option Session → String → Task (Unit {0})
  both_ways none session_id = pure tt
  both_ways (some session) session_id =
      send_relay_twoway session (new_relay_circuit_success host session_id)

  abbrev pub join_stream : Option WrappedStream → String → Task Bool
  join_stream none session_id = pure false
  join_stream (some stream) session_id = do
    new_session_opt ← reads (λ s. get s.session_map session_id)
    both_ways new_session_opt session_id
    pure true

  -- The called client is registered here as well: this node is entry and access.
  unfoldable pub join_local : ClientInfo → String → Task Bool
  join_local to_client_info session_id = do
    wraped_stream_opt ←
        new_session_to_peer host to_client_info.peer_id session_id (role_i32 access_role)
          (role_i32 answer_role)
    join_stream wraped_stream_opt session_id

  abbrev pub neg_request : String → PeerId → NewCircuit → Request
  neg_request own join msg = record {
    req_id = "";
    from = own;
    reqtype = reqtype_i32 neg_plain_text;
    payload = host.neg_plaintext.encode (record {
      session_id = msg.session_id;
      neg = host.negotiate.encode (record {
        join = to_base58 host join;
        session_id = msg.session_id;
        destination = msg.to;
        sig = [];
      });
    });
  }

  abbrev pub send_probe : Option Session → String → Task Bool
  send_probe none session_id = pure false
  send_probe (some session) session_id = do
    send_relay_twoway session (new_relay_probe host session_id)
    pure true

  -- The sink is found: the caller encrypts the negotiation, the node gossips it and sends its probe.
  unfoldable pub negotiate_circuit : PeerId → PeerId → NewCircuit → Task Bool
  negotiate_circuit remote_peer_id join msg = do
    own ← asks (get_id host)
    let request = neg_request own join msg
    let key = from_request_get_id host request
    ack ← external_send_node_request_and_wait key (
        proxy_request (record {
          remote_peer_id = remote_peer_id;
          proxy_request = some (record request { req_id = key });
          peer_operation = none;
        }))
    sender ← new_channel
    emit (
        node_request (
          publish_data (record {
            payload = host.encrypted_neg.encode (record { des = msg.to; cypher = ack.payload });
            sender = sender;
          })))
    publish_res ← await_published
    published ← unwrap publish_res
    session_opt ← reads (λ s. get s.session_map msg.session_id)
    send_probe session_opt msg.session_id

  abbrev pub join_sink : Option PeerId → PeerId → NewCircuit → Task Bool
  join_sink none remote_peer_id msg = do handle_close_session msg.session_id; pure false
  join_sink (some join) remote_peer_id msg = negotiate_circuit remote_peer_id join msg

  abbrev pub search_sink : Option (List NodeInfo) → PeerId → NewCircuit → Task Bool
  search_sink none remote_peer_id msg = pure false
  search_sink (some nodeinfos) remote_peer_id msg = do
    start ← random_peer host
    sink ←
        try_peers host nodeinfos (to_base58 host remote_peer_id) msg.to 3 empty start msg.session_id
          (role_i32 entry_role) (role_i32 sink_role)
    join_sink sink remote_peer_id msg

  unfoldable pub join_remote : Request → PeerId → NewCircuit → Task Bool
  join_remote request remote_peer_id msg = do
    sender ← new_channel
    emit (
        node_request (
          get_main_nets_request (record {
            command_id = request.req_id;
            remote_peer_id = remote_peer_id;
            num = 100;
            sender = sender;
          })))
    nodeinfos_res ← await_node_infos
    search_sink nodeinfos_res remote_peer_id msg

  abbrev pub join_client : Option ClientInfo → Request → PeerId → NewCircuit → Task Bool
  join_client none request remote_peer_id msg = join_remote request remote_peer_id msg
  join_client (some to_client_info) request remote_peer_id msg =
      join_local to_client_info msg.session_id

  abbrev pub checked_circuit : NewCircuit → Request → PeerId → Task Bool
  checked_circuit msg request remote_peer_id = do
    registered ← reads (λ s. contains_key s.client_wn_map msg.from)
    if not registered then pure false else (do
      room ← reads (λ s. has_room (get s.session_map msg.session_id))
      if not room then pure false else (do
        to_client_info_opt ← reads (λ s. get s.client_wn_map msg.to)
        join_client to_client_info_opt request remote_peer_id msg))

  abbrev pub started_circuit : Option NewCircuit → Request → PeerId → Task Bool
  started_circuit none request remote_peer_id = pure false
  started_circuit (some msg) request remote_peer_id = checked_circuit msg request remote_peer_id

  unfoldable pub handle_new_circuit : Request → PeerId → Task Bool
  handle_new_circuit request remote_peer_id =
      started_circuit (host.new_circuit.decode request.payload) request remote_peer_id
