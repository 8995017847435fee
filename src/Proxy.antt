-- ===== src/Proxy.antt =====
-- network/proxy_event_handler.rs: process_proxy_request, the task of the requests that come from other
-- peers, and of their disconnections.
pub mod Registry
pub mod Clients
pub mod Gossip
pub mod Circuit
pub mod Refusals
use white_noise_rs.Prelude.{
  ℕ, zero, suc, String, Bool, true, false, Option, none, some, List, [], length, ◌==◌, ℕ_eq,
  if◌then◌else◌,
}
use white_noise_rs.Proto.{
  Request, NodeInfo, reqtype_i32, decrypt_gossip, neg_plain_text, main_net_peers, new_proxy,
  un_register_type, new_circuit,
}
use white_noise_rs.Host.{Host, PeerId}
use white_noise_rs.State.{NodeProxyRequest, PeerOperation, get_main_nets_request}
use white_noise_rs.Task.{
  Task, node_request, pure, unwrap, out_of_fuel, emit, new_channel, await_node_infos, next_proxied,
  ◌>>=◌, ◌>>◌,
}
use Registry
use Gossip
use Circuit.{handle_new_circuit}

module _ (host : Host) where
  abbrev pub answer_peers : PeerId → String → Option (List NodeInfo) → Task (Unit {0})
  answer_peers peer req_id none =
      Registry.answer peer (record { command_id = req_id; result = false; payload = [] })
  answer_peers peer req_id (some nodeinfos) = Registry.answer peer (record {
    command_id = req_id;
    result = true;
    payload = host.peers_list.encode (record { peers = nodeinfos });
  })

  unfoldable pub send_main_net_peers : PeerId → Request → Task (Unit {0})
  send_main_net_peers peer request = do
    msg ← unwrap (host.main_net_peers.decode request.payload)
    sender ← new_channel
    emit (
        node_request (
          get_main_nets_request (record {
            command_id = request.req_id;
            remote_peer_id = peer;
            num = msg.max;
            sender = sender;
          })))
    nodeinfos_res ← await_node_infos
    answer_peers peer request.req_id nodeinfos_res

  unfoldable pub start_circuit : PeerId → Request → Task (Unit {0})
  start_circuit peer request = do
    res ← handle_new_circuit host request peer
    Registry.answer peer (record { command_id = request.req_id; result = res; payload = [] })

  unfoldable pub handle_request : PeerId → Request → Task (Unit {0})
  handle_request peer request =
      if request.reqtype == reqtype_i32 decrypt_gossip
      then Gossip.decrypt_gossip host peer request
      else if request.reqtype == reqtype_i32 neg_plain_text
      then Gossip.neg_plain_text host peer request
      else if request.reqtype == reqtype_i32 main_net_peers
      then send_main_net_peers peer request
      else if request.reqtype == reqtype_i32 new_proxy
      then Registry.register host peer request
      else if request.reqtype == reqtype_i32 un_register_type
      then Registry.unregister host peer
      else if request.reqtype == reqtype_i32 new_circuit
      then start_circuit peer request
      else pure tt

  -- One message of the channel: a peer operation comes first, and without one the request.
  abbrev pub handle_operation : Option PeerOperation → NodeProxyRequest → Task (Unit {0})
  handle_operation (some PeerOperation.disconnects) r = Registry.unregister host r.remote_peer_id
  handle_operation none r = do
    request ← unwrap r.proxy_request
    handle_request r.remote_peer_id request

  unfoldable pub handle_proxy_request : NodeProxyRequest → Task (Unit {0})
  handle_proxy_request r = handle_operation r.peer_operation r

  unfoldable pub proxy_loop : ℕ → Task (Unit {0})
  proxy_loop zero = out_of_fuel
  proxy_loop (suc fuel) = do
    proxy_request_option ← next_proxied
    elim proxy_request_option [
      | none ↦ pure tt
      | some r ↦ (do handle_proxy_request r; proxy_loop fuel)
    ]

  -- Each round takes an input at least, so a round more than there are inputs is enough.
  unfoldable pub process_proxy_request : Task (Unit {0})
  process_proxy_request w = proxy_loop (suc (length w.inputs)) w
