-- ===== src/Witnesses/Calls.antt =====
-- Runs of a client's calls and of the swarm's events.
use white_noise_rs.Prelude.{◌≡◌, refl, true, false, some, [], ◌∷◌, string_eq, arith, List}
use white_noise_rs.Proto.{Ack}
use white_noise_rs.State.{new_shared}
use white_noise_rs.Node.Waiters.{awaiting}
use white_noise_rs.Swarm.{
  KadEntry, get_kad_peers, node_info, request_message, resolve, inject_ack_event,
}
use white_noise_rs.HashMap.{empty}
use white_noise_rs.Swarm.{relay_inbound}
use white_noise_rs.Swarm.Polling.{
  Selected, write, read_one, close, Wire, start_poll, start_poll_orders,
}
use white_noise_rs.Swarm.Relays.{
  oldest_first, Relay, Poll, generate_event, Queues, poll, queues, poll_first_in_first_out,
}
use white_noise_rs.Swarm.Peers.{get_kad_peers-takes}
use white_noise_rs.Swarm.Acks.{ack_resolves_once}
use white_noise_rs.Witnesses.Setting.{host, peer, stream_a, stream_b, stream_c}

abbrev good : Ack
good = record { command_id = "k"; result = true; payload = [] }

abbrev up : KadEntry
up = record { peer_id = peer 1; connected = true; addresses = "/ip4" ∷ [] }

abbrev down : KadEntry
down = record { peer_id = peer 2; connected = false; addresses = [] }

get_kad_peers-takes_example :
    get_kad_peers host (up ∷ down ∷ up ∷ up ∷ []) 2 ≡ node_info host up ∷ node_info host up ∷ []
get_kad_peers-takes_example = get_kad_peers-takes host 2 (up ∷ down ∷ up ∷ up ∷ []) (omega arith)

ack_resolves_once_example :
    let r =
      inject_ack_event (λ n. true) (request_message (peer 1) good) (awaiting "k" new_shared) in
    r.0 ≡ some (resolve new_shared.next_channel good ∷ [])
ack_resolves_once_example = (ack_resolves_once (λ n. true) (peer 1) (peer 2) good new_shared refl).0

abbrev busy : Relay
busy = record {
  out_events = relay_inbound stream_b ∷ relay_inbound stream_a ∷ [];
  dive_events = peer 3 ∷ [];
  addresses = empty;
  polls = [];
}

abbrev polled : Poll × Queues
polled = ((poll busy).0, queues (poll busy).1)

abbrev expected : Poll × Queues
expected = (generate_event (relay_inbound stream_a), (relay_inbound stream_b ∷ [], peer 3 ∷ []))

poll_first_in_first_out_example : polled ≡ expected
poll_first_in_first_out_example = (poll_first_in_first_out busy stream_c (peer 4)).4

abbrev fresh_wire : Wire
fresh_wire = record { written = []; spawned = []; errors = 0; closed = false }

abbrev selections : List Selected
selections =
    write (1 ∷ []) true ∷ read_one (2 ∷ []) ∷ write (3 ∷ []) true ∷ close ∷ write (4 ∷ []) true ∷ []

start_poll_orders_example :
    (oldest_first (start_poll selections fresh_wire).1.written ≡ (1 ∷ []) ∷ (3 ∷ []) ∷ [])
    × (oldest_first (start_poll selections fresh_wire).1.spawned ≡ (2 ∷ []) ∷ [])
start_poll_orders_example = let r = start_poll_orders selections fresh_wire in (r.0, r.1)
