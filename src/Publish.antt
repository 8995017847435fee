-- ===== src/Publish.antt =====
-- network/publish_event_handler.rs: process_publish_request, the task of the gossip messages. The node
-- at which the called client is registered makes itself the access node of the circuit.
use white_noise_rs.Prelude.{
  ℕ, zero, suc, String, Bool, true, false, Option, none, some, List, length, ◌==◌, ℕ_eq, string_eq,
  if◌then◌else◌,
}
use white_noise_rs.HashMap.{get, empty}
use white_noise_rs.Proto.{
  Request, Command, Ack, EncryptedNeg, Negotiate, NodeInfo, reqtype_i32, decrypt_gossip,
  cmdtype_i32, session_ex_pend,
}
use white_noise_rs.Host.{Host, PeerId}
use white_noise_rs.State.{
  WrappedStream, Session, ClientInfo, proxy_request, cmd_request, get_main_nets_request, role_i32,
  access_role, answer_role, relay_role,
}
use white_noise_rs.Task.{
  Task, node_request, pure, unwrap, out_of_fuel, reads, asks, emit, new_channel, await_node_infos,
  next_gossiped, ◌>>=◌, ◌>>◌,
}
use white_noise_rs.Utils.Ids.{from_request_get_id, from_bytes_get_id}
use white_noise_rs.Utils.Write.{new_relay_circuit_success, new_relay_probe}
use white_noise_rs.Utils.Forward.{send_relay_twoway}
use white_noise_rs.Node.Sessions.{handle_close_session, new_session_to_peer}
use white_noise_rs.Node.Requests.{get_id, external_send_node_request_and_wait}
use white_noise_rs.Peers.{random_peer, try_peers}

module _ (host : Host) where
  abbrev pub decrypt_request : String → EncryptedNeg → Request
  decrypt_request own encrypted_neg = record {
    req_id = "";
    from = own;
    reqtype = reqtype_i32 decrypt_gossip;
    payload =
        host.decrypt.encode
          (record { cypher = encrypted_neg.cypher; destination = encrypted_neg.des });
  }

  abbrev pub send_both : Option Session → String → Task (Unit {0})
  send_both none session_id = pure tt
  send_both (some session) session_id =
      send_relay_twoway session (new_relay_circuit_success host session_id)

  abbrev pub probe_both : Option Session → String → Task (Unit {0})
  probe_both none session_id = pure tt
  probe_both (some session) session_id = send_relay_twoway session (new_relay_probe host session_id)

  abbrev pub expend_command : String → Negotiate → Command
  expend_command own negotiate = record {
    command_id = "";
    type = cmdtype_i32 session_ex_pend;
    from = own;
    payload =
        host.session_expend.encode
          (record { session_id = negotiate.session_id; peer_id = negotiate.join });
  }

  abbrev pub probe_if : Bool → Negotiate → Task (Unit {0})
  probe_if false negotiate = handle_close_session negotiate.session_id
  probe_if true negotiate = do
    session_opt ← reads (λ s. get s.session_map negotiate.session_id)
    probe_both session_opt negotiate.session_id

  -- The relay is found: it is asked to extend the circuit to the sink, and the node sends its probe.
  unfoldable pub extend_to_sink : PeerId → Negotiate → Task (Unit {0})
  extend_to_sink relay negotiate = do
    own ← asks (get_id host)
    let command = expend_command own negotiate
    let key = from_bytes_get_id host (host.command.encode command)
    ack ← external_send_node_request_and_wait key (
        cmd_request (record {
          remote_peer_id = relay;
          cmd_request = some (record command { command_id = key });
        }))
    probe_if ack.result negotiate

  abbrev pub join_relay : Option PeerId → Negotiate → Task (Unit {0})
  join_relay none negotiate = handle_close_session negotiate.session_id
  join_relay (some relay) negotiate = extend_to_sink relay negotiate

  abbrev pub search_relay : Option (List NodeInfo) → String → Negotiate → Task (Unit {0})
  search_relay none des negotiate = pure tt
  search_relay (some nodeinfos) des negotiate = do
    start ← random_peer host
    relay ←
        try_peers host nodeinfos negotiate.join des 3 empty start negotiate.session_id
          (role_i32 access_role) (role_i32 relay_role)
    join_relay relay negotiate

  unfoldable pub find_relay : String → Negotiate → Task (Unit {0})
  find_relay des negotiate = do
    sender ← new_channel
    any_peer ← random_peer host
    emit (
        node_request (
          get_main_nets_request
            (record { command_id = "123"; remote_peer_id = any_peer; num = 100; sender = sender })))
    nodeinfos_res ← await_node_infos
    search_relay nodeinfos_res des negotiate

  abbrev pub answered : Option WrappedStream → String → Negotiate → Task (Unit {0})
  answered none des negotiate = handle_close_session negotiate.session_id
  answered (some stream) des negotiate = do
    own ← asks (get_id host)
    if negotiate.join == own
        then (do
          new_session_opt ← reads (λ s. get s.session_map negotiate.session_id)
          send_both new_session_opt negotiate.session_id)
        else find_relay des negotiate

  -- The client has decrypted the gossip message.
  unfoldable pub join_answer : ClientInfo → String → Ack → Task (Unit {0})
  join_answer client_info des ack =
      if ack.result
      then (do
        negotiate ← unwrap (host.negotiate.decode ack.payload)
        wraped_stream_opt ←
            new_session_to_peer host client_info.peer_id negotiate.session_id (role_i32 access_role)
              (role_i32 answer_role)
        answered wraped_stream_opt des negotiate)
      else pure tt

  abbrev pub negotiate_client : Option ClientInfo → EncryptedNeg → Task (Unit {0})
  negotiate_client none encrypted_neg = pure tt
  negotiate_client (some client_info) encrypted_neg = do
    own ← asks (get_id host)
    let request = decrypt_request own encrypted_neg
    let key = from_request_get_id host request
    ack ← external_send_node_request_and_wait key (
        proxy_request (record {
          remote_peer_id = client_info.peer_id;
          proxy_request = some (record request { req_id = key });
          peer_operation = none;
        }))
    join_answer client_info encrypted_neg.des ack

  unfoldable pub handle_gossip : List ℕ → Task (Unit {0})
  handle_gossip message = do
    encrypted_neg ← unwrap (host.encrypted_neg.decode message)
    found ← reads (λ s. get s.client_wn_map encrypted_neg.des)
    negotiate_client found encrypted_neg

  unfoldable pub publish_loop : ℕ → Task (Unit {0})
  publish_loop zero = out_of_fuel
  publish_loop (suc fuel) = do
    gossipsub_message_opt ← next_gossiped
    elim gossipsub_message_opt [
      | none ↦ pure tt
      | some message ↦ (do handle_gossip message; publish_loop fuel)
    ]

  -- Each round takes an input at least, so a round more than there are inputs is enough.
  unfoldable pub process_publish_request : Task (Unit {0})
  process_publish_request w = publish_loop (suc (length w.inputs)) w
