-- ===== src/Invariant/Handlers.antt =====
-- The tasks of the three event channels keep the invariant: proxy_event_handler.rs,
-- cmd_event_handler.rs and publish_event_handler.rs.
use white_noise_rs.Prelude.{ℕ, String, true, false, Option, none, some, List}
use white_noise_rs.Proto.{Request, NewCircuit, NodeInfo, Negotiate}
use white_noise_rs.Host.{Host, PeerId}
use white_noise_rs.State.{WrappedStream, Session, ClientInfo, PeerOperation, NodeProxyRequest}
use white_noise_rs.Task.Keeps.{Keeps, keeps_rules, Keeps-bind, Keeps-pure, Keeps-unwrap}
use white_noise_rs.Utils.Keeping.{send_relay_twoway-Keeps}
use white_noise_rs.Proxy.Gossip.{answer_plain, decrypt_gossip, neg_plain_text}
use white_noise_rs.Proxy.Circuit.{
  both_ways, join_stream, started_circuit, join_local, send_probe, negotiate_circuit, join_sink,
  search_sink, join_remote, join_client, handle_new_circuit,
}
use white_noise_rs.Proxy.{
  answer_peers, send_main_net_peers, start_circuit, handle_request, handle_operation,
  handle_proxy_request,
}
use white_noise_rs.Invariant.Updates.{Fits}
use white_noise_rs.Invariant.Sessions.{
  session_rules, new_session_to_peer-Keeps, handle_close_session-Keeps,
}
use white_noise_rs.Invariant.Clients.{client_rules, unregister-Keeps}
use white_noise_rs.Invariant.Peers.{random_peer-Keeps, try_peers-Keeps}

module _ (host : Host) {floor : ℕ} where
  answer_plain-Keeps :
      (peer : PeerId) (id : String) (text : List ℕ) (o : Option Negotiate)
      → Keeps (Fits host floor) (answer_plain host peer id text o)
  answer_plain-Keeps peer id text none = Keeps-pure tt
  answer_plain-Keeps peer id text (some m) = search client_rules

  decrypt_gossip-Keeps :
      (peer : PeerId) (request : Request)
      → Keeps (Fits host floor) (decrypt_gossip host peer request)
  unfolding decrypt_gossip
  decrypt_gossip-Keeps peer request = search (keeps_rules, answer_plain-Keeps) depth 12

  neg_plain_text-Keeps :
      (peer : PeerId) (request : Request)
      → Keeps (Fits host floor) (neg_plain_text host peer request)
  unfolding neg_plain_text
  neg_plain_text-Keeps peer request = search (keeps_rules, client_rules) depth 12

  both_ways-Keeps :
      (o : Option Session) (id : String) → Keeps (Fits host floor) (both_ways host o id)
  both_ways-Keeps none id = Keeps-pure tt
  both_ways-Keeps (some session) id = send_relay_twoway-Keeps session _

  join_stream-Keeps :
      (o : Option WrappedStream) (id : String) → Keeps (Fits host floor) (join_stream host o id)
  join_stream-Keeps none id = Keeps-pure false
  join_stream-Keeps (some stream) id = search (keeps_rules, both_ways-Keeps) depth 12

  join_local-Keeps : (c : ClientInfo) (id : String) → Keeps (Fits host floor) (join_local host c id)
  unfolding join_local
  join_local-Keeps c id =
      Keeps-bind _ _ (new_session_to_peer-Keeps host c.peer_id id _ _) (λ o. join_stream-Keeps o id)

  send_probe-Keeps :
      (o : Option Session) (id : String) → Keeps (Fits host floor) (send_probe host o id)
  send_probe-Keeps none id = Keeps-pure false
  send_probe-Keeps (some session) id =
      Keeps-bind _ _ (send_relay_twoway-Keeps session _) (λ _. Keeps-pure true)

  negotiate_circuit-Keeps :
      (peer join : PeerId) (msg : NewCircuit)
      → Keeps (Fits host floor) (negotiate_circuit host peer join msg)
  unfolding negotiate_circuit
  negotiate_circuit-Keeps peer join msg = search (session_rules, send_probe-Keeps) depth 20

  join_sink-Keeps :
      (o : Option PeerId) (peer : PeerId) (msg : NewCircuit)
      → Keeps (Fits host floor) (join_sink host o peer msg)
  join_sink-Keeps none peer msg =
      Keeps-bind _ _ (handle_close_session-Keeps host msg.session_id) (λ _. Keeps-pure false)
  join_sink-Keeps (some join) peer msg = negotiate_circuit-Keeps peer join msg

  search_sink-Keeps :
      (o : Option (List NodeInfo)) (peer : PeerId) (msg : NewCircuit)
      → Keeps (Fits host floor) (search_sink host o peer msg)
  search_sink-Keeps none peer msg = Keeps-pure false
  search_sink-Keeps (some nodeinfos) peer msg = Keeps-bind _ _ (random_peer-Keeps host) (λ start.
      Keeps-bind _ _ (try_peers-Keeps host nodeinfos _ msg.to 3 _ start msg.session_id _ _)
        (λ sink. join_sink-Keeps sink peer msg))

  join_client-Keeps :
      (o : Option ClientInfo) (request : Request) (peer : PeerId) (msg : NewCircuit)
      → Keeps (Fits host floor) (join_client host o request peer msg)
  unfolding join_remote
  join_client-Keeps none request peer msg = search (session_rules, search_sink-Keeps) depth 12
  join_client-Keeps (some c) request peer msg = join_local-Keeps c msg.session_id

  started_circuit-Keeps :
      (o : Option NewCircuit) (request : Request) (peer : PeerId)
      → Keeps (Fits host floor) (started_circuit host o request peer)
  started_circuit-Keeps none request peer = Keeps-pure false
  started_circuit-Keeps (some msg) request peer = search (keeps_rules, join_client-Keeps) depth 14

  handle_new_circuit-Keeps :
      (request : Request) (peer : PeerId)
      → Keeps (Fits host floor) (handle_new_circuit host request peer)
  unfolding handle_new_circuit
  handle_new_circuit-Keeps request peer = started_circuit-Keeps _ request peer

  answer_peers-Keeps :
      (peer : PeerId) (id : String) (o : Option (List NodeInfo))
      → Keeps (Fits host floor) (answer_peers host peer id o)
  answer_peers-Keeps peer id none = search client_rules
  answer_peers-Keeps peer id (some nodeinfos) = search client_rules

  handle_request-Keeps :
      (peer : PeerId) (request : Request)
      → Keeps (Fits host floor) (handle_request host peer request)
  unfolding handle_request send_main_net_peers start_circuit
  handle_request-Keeps peer request =
      search
        (
          session_rules, client_rules, decrypt_gossip-Keeps, neg_plain_text-Keeps,
          answer_peers-Keeps, handle_new_circuit-Keeps,
        )
        depth 16

  handle_operation-Keeps :
      (o : Option PeerOperation) (r : NodeProxyRequest)
      → Keeps (Fits host floor) (handle_operation host o r)
  handle_operation-Keeps (some PeerOperation.disconnects) r = unregister-Keeps host r.remote_peer_id
  handle_operation-Keeps none r =
      Keeps-bind _ _ (Keeps-unwrap _) (λ request. handle_request-Keeps r.remote_peer_id request)

  pub handle_proxy_request-Keeps :
      (r : NodeProxyRequest) → Keeps (Fits host floor) (handle_proxy_request host r)
  unfolding handle_proxy_request
  handle_proxy_request-Keeps r = handle_operation-Keeps r.peer_operation r
