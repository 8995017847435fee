-- ===== src/Invariant/Circuits.antt =====
-- cmd_event_handler.rs and publish_event_handler.rs: extending a circuit keeps the invariant.
use white_noise_rs.Prelude.{ℕ, String, Bool, true, false, Option, none, some, List}
use white_noise_rs.Proto.{NodeInfo, Negotiate, EncryptedNeg, Ack, SessionExpend}
use white_noise_rs.Host.{Host, PeerId}
use white_noise_rs.State.{WrappedStream, Session, ClientInfo, NodeCmdRequest}
use white_noise_rs.Task.Keeps.{Keeps, keeps_rules, Keeps-bind, Keeps-pure, Keeps-reads}
use white_noise_rs.Utils.Keeping.{send_relay_twoway-Keeps}
use white_noise_rs.Cmd.{
  ack_command, answer_stream, expend_session, session_expend, handle_cmd_request,
}
use white_noise_rs.Publish.{
  send_both, probe_both, probe_if, extend_to_sink, join_relay, search_relay, find_relay, answered,
  join_answer, negotiate_client, handle_gossip,
}
use white_noise_rs.Invariant.Updates.{Fits}
use white_noise_rs.Invariant.Sessions.{session_rules, handle_close_session-Keeps, send_ack-Keeps}
use white_noise_rs.Invariant.Peers.{random_peer-Keeps, try_peers-Keeps}

module _ (host : Host) {floor : ℕ} where
  ack_command-Keeps : (peer : PeerId) (ack : Ack) → Keeps (Fits host floor) (ack_command peer ack)
  unfolding ack_command
  ack_command-Keeps peer ack = send_ack-Keeps host _

  answer_stream-Keeps :
      (o : Option WrappedStream) (peer : PeerId) (id : String) (msg : SessionExpend)
      → Keeps (Fits host floor) (answer_stream host o peer id msg)
  answer_stream-Keeps none peer id msg =
      Keeps-bind _ _ (handle_close_session-Keeps host msg.session_id)
        (λ _. ack_command-Keeps peer _)
  answer_stream-Keeps (some stream) peer id msg = ack_command-Keeps peer _

  expend_session-Keeps :
      (o : Option Session) (peer : PeerId) (id : String) (msg : SessionExpend)
      → Keeps (Fits host floor) (expend_session host o peer id msg)
  expend_session-Keeps none peer id msg =
      Keeps-bind _ _ (handle_close_session-Keeps host msg.session_id)
        (λ _. ack_command-Keeps peer _)
  expend_session-Keeps (some session) peer id msg =
      search (session_rules, ack_command-Keeps, answer_stream-Keeps) depth 14

  pub handle_cmd_request-Keeps :
      (r : NodeCmdRequest) → Keeps (Fits host floor) (handle_cmd_request host r)
  unfolding handle_cmd_request session_expend
  handle_cmd_request-Keeps r = search (keeps_rules, expend_session-Keeps) depth 14

  send_both-Keeps :
      (o : Option Session) (id : String) → Keeps (Fits host floor) (send_both host o id)
  send_both-Keeps none id = Keeps-pure tt
  send_both-Keeps (some session) id = send_relay_twoway-Keeps session _

  probe_both-Keeps :
      (o : Option Session) (id : String) → Keeps (Fits host floor) (probe_both host o id)
  probe_both-Keeps none id = Keeps-pure tt
  probe_both-Keeps (some session) id = send_relay_twoway-Keeps session _

  probe_if-Keeps : (b : Bool) (n : Negotiate) → Keeps (Fits host floor) (probe_if host b n)
  probe_if-Keeps false n = handle_close_session-Keeps host n.session_id
  probe_if-Keeps true n = Keeps-bind _ _ (Keeps-reads _) (λ o. probe_both-Keeps o n.session_id)

  join_relay-Keeps :
      (o : Option PeerId) (n : Negotiate) → Keeps (Fits host floor) (join_relay host o n)
  unfolding extend_to_sink
  join_relay-Keeps none n = handle_close_session-Keeps host n.session_id
  join_relay-Keeps (some relay) n = search (session_rules, probe_if-Keeps) depth 12

  search_relay-Keeps :
      (o : Option (List NodeInfo)) (des : String) (n : Negotiate)
      → Keeps (Fits host floor) (search_relay host o des n)
  search_relay-Keeps none des n = Keeps-pure tt
  search_relay-Keeps (some nodeinfos) des n = Keeps-bind _ _ (random_peer-Keeps host) (λ start.
      Keeps-bind _ _ (try_peers-Keeps host nodeinfos n.join des 3 _ start n.session_id _ _)
        (λ relay. join_relay-Keeps relay n))

  find_relay-Keeps :
      (des : String) (n : Negotiate) → Keeps (Fits host floor) (find_relay host des n)
  unfolding find_relay
  find_relay-Keeps des n = search (session_rules, random_peer-Keeps, search_relay-Keeps) depth 14

  answered-Keeps :
      (o : Option WrappedStream) (des : String) (n : Negotiate)
      → Keeps (Fits host floor) (answered host o des n)
  answered-Keeps none des n = handle_close_session-Keeps host n.session_id
  answered-Keeps (some stream) des n =
      search (keeps_rules, send_both-Keeps, find_relay-Keeps) depth 12

  join_answer-Keeps :
      (c : ClientInfo) (des : String) (ack : Ack)
      → Keeps (Fits host floor) (join_answer host c des ack)
  unfolding join_answer
  join_answer-Keeps c des ack = search (session_rules, answered-Keeps) depth 12

  negotiate_client-Keeps :
      (o : Option ClientInfo) (m : EncryptedNeg)
      → Keeps (Fits host floor) (negotiate_client host o m)
  negotiate_client-Keeps none m = Keeps-pure tt
  negotiate_client-Keeps (some c) m = search (session_rules, join_answer-Keeps) depth 12

  pub handle_gossip-Keeps :
      (message : List ℕ) → Keeps (Fits host floor) (handle_gossip host message)
  unfolding handle_gossip
  handle_gossip-Keeps message = search (keeps_rules, negotiate_client-Keeps) depth 12
