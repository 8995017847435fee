-- ===== src/Swarm/Events.antt =====
-- network/whitenoise_behaviour.rs: the events of gossip and identify, and the two event loops.
use white_noise_rs.Prelude.{
  ℕ, String, Bool, true, false, ◌||◌, ◌≡◌, refl, List, [], ◌∷◌, ◌++◌, map, starts_with,
  if◌then◌else◌,
}
use white_noise_rs.Host.{Host, PeerId}
use white_noise_rs.State.{
  NodeRequest, proxy_request, cmd_request, ack_request, new_stream_request,
  add_peer_addresses_request, get_main_nets_request, publish_data,
}
use white_noise_rs.Swarm.{
  SwarmEffect, to_publish_task, kad_add_address, KadEntry, server_request, client_request,
  completes,
}

-- libp2p's GossipsubEvent and IdentifyEvent, as far as the node reads them.
pub data GossipsubEvent : Type 0 where
  gossip_message : List ℕ → GossipsubEvent
  subscribed other_gossip : GossipsubEvent

pub data IdentifyEvent : Type 0 where
  -- the peer, its addresses and its protocols
  received : PeerId → List String → List String → IdentifyEvent
  identify_sent identify_error pushed : IdentifyEvent

unfoldable pub inject_gossip_event : GossipsubEvent → List SwarmEffect
inject_gossip_event (gossip_message m) = to_publish_task m ∷ []
inject_gossip_event subscribed = []
inject_gossip_event other_gossip = []

-- x.find("meshsub") finds something.
unfoldable pub has_meshsub : String → Bool
has_meshsub String.[] = false
has_meshsub (String.◌∷◌ c s) =
    let later = has_meshsub s in if starts_with "meshsub" (String.◌∷◌ c s) then true else later

-- The loop over the protocols, which sets `is_server_node`.
unfoldable pub is_server_node : List String → Bool
is_server_node [] = false
is_server_node (x ∷ protocols) = has_meshsub x || is_server_node protocols

-- Only nodes that gossip, which are the servers, come into the routing table.
unfoldable pub inject_identify_event : IdentifyEvent → List SwarmEffect
inject_identify_event (received peer_id listen_addrs protocols) =
    if is_server_node protocols then map (kad_add_address peer_id) listen_addrs else []
inject_identify_event identify_sent = []
inject_identify_event identify_error = []
inject_identify_event pushed = []

-- What `select!` gives in a round: an event of the swarm that no behaviour has taken, or the next of the
-- node's requests, or that all its senders are gone. The circumstances of a request are those of
-- server_request.
pub data Selected : Type 0 where
  swarm_event closed : Selected
  next_request : (ℕ → Bool) → (List ℕ → Bool) → List KadEntry → NodeRequest → Selected

-- `running`: no more has been selected yet.
pub data LoopEnd : Type 0 where
  running broken_off panicked : LoopEnd

abbrev pub and_then :
    List SwarmEffect × Bool → List SwarmEffect × LoopEnd → List SwarmEffect × LoopEnd
and_then (effects, false) rest = (effects, panicked)
and_then (effects, true) rest = (effects ++ rest.0, rest.1)

module _ (host : Host) where
  unfoldable pub whitenoise_server_event_loop : List Selected → List SwarmEffect × LoopEnd
  whitenoise_server_event_loop [] = ([], running)
  whitenoise_server_event_loop (swarm_event ∷ rounds) = ([], panicked)
  whitenoise_server_event_loop (closed ∷ rounds) = ([], broken_off)
  whitenoise_server_event_loop (next_request alive publishes entries r ∷ rounds) =
      and_then (server_request host alive publishes entries r) (whitenoise_server_event_loop rounds)

unfoldable pub whitenoise_client_event_loop : List Selected → List SwarmEffect × LoopEnd
whitenoise_client_event_loop [] = ([], running)
whitenoise_client_event_loop (swarm_event ∷ rounds) = ([], panicked)
whitenoise_client_event_loop (closed ∷ rounds) = ([], broken_off)
whitenoise_client_event_loop (next_request alive publishes entries r ∷ rounds) =
    and_then (completes (client_request r)) (whitenoise_client_event_loop rounds)

-- The rounds of a client without those of the two kinds of requests that only servers answer.
abbrev pub keep : NodeRequest → Selected → List Selected → List Selected
keep (get_main_nets_request r) s rounds = rounds
keep (publish_data r) s rounds = rounds
keep (proxy_request r) s rounds = s ∷ rounds
keep (cmd_request r) s rounds = s ∷ rounds
keep (ack_request r) s rounds = s ∷ rounds
keep (new_stream_request r) s rounds = s ∷ rounds
keep (add_peer_addresses_request r) s rounds = s ∷ rounds

abbrev pub without_server_requests : List Selected → List Selected
without_server_requests [] = []
without_server_requests (swarm_event ∷ rounds) = swarm_event ∷ without_server_requests rounds
without_server_requests (closed ∷ rounds) = closed ∷ without_server_requests rounds
without_server_requests (next_request alive publishes entries r ∷ rounds) =
    keep r (next_request alive publishes entries r) (without_server_requests rounds)

-- A client's event loop does exactly what a server's would do without the requests for the list of nodes and
-- the requests to publish, in the same order and with the same end.
pub client_loop_agrees :
    (host : Host) (rounds : List Selected)
    → whitenoise_client_event_loop rounds
      ≡ whitenoise_server_event_loop host (without_server_requests rounds)
unfolding whitenoise_client_event_loop whitenoise_server_event_loop client_request server_request
client_loop_agrees host [] = refl
client_loop_agrees host (swarm_event ∷ rounds) = refl
client_loop_agrees host (closed ∷ rounds) = refl
client_loop_agrees host (next_request alive publishes entries (proxy_request r) ∷ rounds) =
    rw (client_loop_agrees host rounds) refl
client_loop_agrees host (next_request alive publishes entries (cmd_request r) ∷ rounds) =
    rw (client_loop_agrees host rounds) refl
client_loop_agrees host (next_request alive publishes entries (ack_request r) ∷ rounds) =
    rw (client_loop_agrees host rounds) refl
client_loop_agrees host (next_request alive publishes entries (new_stream_request r) ∷ rounds) =
    rw (client_loop_agrees host rounds) refl
client_loop_agrees host
      (next_request alive publishes entries (add_peer_addresses_request r) ∷ rounds) =
    rw (client_loop_agrees host rounds) refl
client_loop_agrees host (next_request alive publishes entries (get_main_nets_request r) ∷ rounds) =
    client_loop_agrees host rounds
client_loop_agrees host (next_request alive publishes entries (publish_data r) ∷ rounds) =
    client_loop_agrees host rounds
