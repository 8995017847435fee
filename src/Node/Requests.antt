-- ===== src/Node/Requests.antt =====
-- network/node.rs: requests to the swarm, and those that wait for an ack.
use white_noise_rs.Prelude.{String, string_eq}
use white_noise_rs.HashMap.{insert}
use white_noise_rs.Proto.{Ack}
use white_noise_rs.Host.{Host, to_base58}
use white_noise_rs.State.{NodeRequest, Local}
use white_noise_rs.Task.{
  Task, node_request, unwrap, modify, emit, new_channel, await_ack, ◌>>=◌, ◌>>◌,
}

unfoldable pub get_id : Host → Local → String
get_id host l = to_base58 host (host.peer_of_keypair l.keypair)

unfoldable pub external_send_node_request_not_wait : NodeRequest → Task (Unit {0})
external_send_node_request_not_wait request = emit (node_request request)

unfoldable pub send_ack : NodeRequest → Task (Unit {0})
send_ack request = emit (node_request request)

-- The sender is in the event bus before the request goes out.
unfoldable pub external_send_node_request_and_wait : String → NodeRequest → Task Ack
external_send_node_request_and_wait key request = do
  sender ← new_channel
  modify (λ s. record s { event_bus = insert s.event_bus key sender })
  emit (node_request request)
  ack ← await_ack
  unwrap ack
