-- ===== src/Swarm.antt =====
-- network/whitenoise_behaviour.rs: what the swarm's events and the requests of the tasks make the node do.
-- libp2p itself, the routing table included, is a parameter: its events and its entries come from outside.
pub mod Peers
pub mod Acks
pub mod Relays
pub mod Polling
pub mod Handler
pub mod Events
use white_noise_rs.Prelude.{
  ℕ, suc, ◌+◌, ◌^◌, String, Bool, true, false, ◌&&◌, Option, none, some, List, [], ◌∷◌, ◌++◌, not,
  ltb, string_eq, ◌==◌, if◌then◌else◌, starts_with,
}
use mathlib.Core.Option
use white_noise_rs.HashMap.{get, remove}
use white_noise_rs.Proto.{Request, Command, Ack, NodeInfo}
use white_noise_rs.Host.{Host, PeerId, to_base58}
use white_noise_rs.State.{
  WrappedStream, Shared, PeerOperation, NodeProxyRequest, NodeCmdRequest, NodeRequest,
  proxy_request, cmd_request, ack_request, new_stream_request, add_peer_addresses_request,
  get_main_nets_request, publish_data,
}

-- protocols/relay_behaviour.rs
pub data RelayEvent : Type 0 where
  relay_inbound relay_outbound : WrappedStream → RelayEvent
  relay_disconnect : PeerId → RelayEvent

-- libp2p's RequestResponseEvent, as far as the node reads it.
pub data RequestResponseEvent (A : Type 0) : Type 0 where
  inbound_failure outbound_failure response_sent response_message : RequestResponseEvent A
  request_message : PeerId → A → RequestResponseEvent A

pub data SwarmEffect : Type 0 where
  -- to the channels of the handler tasks
  to_proxy_task : NodeProxyRequest → SwarmEffect
  to_cmd_task : NodeCmdRequest → SwarmEffect
  -- into the oneshot channel of that name
  resolve : ℕ → Ack → SwarmEffect
  resolve_peers : ℕ → List NodeInfo → SwarmEffect
  resolve_published : ℕ → SwarmEffect
  -- out to other nodes
  send_proxy : PeerId → Request → SwarmEffect
  send_cmd : PeerId → Command → SwarmEffect
  send_ack_to : PeerId → Ack → SwarmEffect
  open_stream : PeerId → SwarmEffect
  learn_addresses : PeerId → List String → SwarmEffect
  gossip : List ℕ → SwarmEffect
  -- a gossip message for the publish task, and an address for the routing table
  to_publish_task : List ℕ → SwarmEffect
  kad_add_address : PeerId → String → SwarmEffect

unfoldable pub inject_relay_event : RelayEvent → Shared → Shared × List SwarmEffect
inject_relay_event (relay_inbound x) s =
    (record s { relay_in_streams = s.relay_in_streams ++ x ∷ [] }, [])
inject_relay_event (relay_outbound x) s =
    (record s { relay_out_streams = s.relay_out_streams ++ x ∷ [] }, [])
inject_relay_event (relay_disconnect peer_id) s = (
  s,
  to_proxy_task (record {
    remote_peer_id = peer_id;
    proxy_request = none;
    peer_operation = some PeerOperation.disconnects;
  })
      ∷ [],
)

unfoldable pub inject_proxy_event : RequestResponseEvent Request → List SwarmEffect
inject_proxy_event (request_message peer request) =
    to_proxy_task
      (record { remote_peer_id = peer; proxy_request = some request; peer_operation = none })
    ∷ []
inject_proxy_event _ = []

unfoldable pub inject_cmd_event : RequestResponseEvent Command → List SwarmEffect
inject_cmd_event (request_message peer request) =
    to_cmd_task (record { remote_peer_id = peer; cmd_request = some request }) ∷ []
inject_cmd_event _ = []

-- A sender whose receiver is gone makes `send` fail, and `unwrap` panic: `none`.
abbrev pub send_to : (ℕ → Bool) → Option ℕ → Ack → Option (List SwarmEffect)
send_to alive none ack = some []
send_to alive (some sender) ack = if alive sender then some (resolve sender ack ∷ []) else none

-- `alive` tells the receivers that still wait. The sender is taken out before it is used.
unfoldable pub inject_ack_event :
    (ℕ → Bool) → RequestResponseEvent Ack → Shared → Option (List SwarmEffect) × Shared
inject_ack_event alive (request_message peer ack) s = (
  send_to alive (get s.event_bus ack.command_id) ack,
  record s { event_bus = remove s.event_bus ack.command_id },
)
inject_ack_event alive _ s = (some [], s)

-- An entry of the routing table.
pub record KadEntry : Type 0 where
  pub peer_id : PeerId
  pub connected : Bool
  pub addresses : List String

-- address_str.matches("p2p") finds something.
unfoldable pub has_p2p : String → Bool
has_p2p String.[] = false
has_p2p (String.◌∷◌ c s) =
    let later = has_p2p s in if starts_with "p2p" (String.◌∷◌ c s) then true else later

unfoldable pub plain_addresses : List String → List String
plain_addresses [] = []
plain_addresses (a ∷ l) = let rest = plain_addresses l in if has_p2p a then rest else a ∷ rest

-- `cnt < number` of two i32, of which `cnt` is not negative.
abbrev pub below : ℕ → ℕ → Bool
below cnt number = ltb number (2 ^ 31) && ltb cnt number

-- `none` is a panic before anything is done.
abbrev pub completes : Option (List SwarmEffect) → List SwarmEffect × Bool
completes none = ([], false)
completes (some effects) = (effects, true)

module _ (host : Host) where
  abbrev pub node_info : KadEntry → NodeInfo
  node_info entry = record {
    id = to_base58 host entry.peer_id;
    addr = plain_addresses entry.addresses;
  }

  -- The loop over the buckets, with the entries in their order.
  unfoldable pub kad_loop : ℕ → ℕ → List KadEntry → List NodeInfo
  kad_loop number cnt [] = []
  kad_loop number cnt (entry ∷ entries) =
      let counted = kad_loop number (suc cnt) entries in
      let skipped = kad_loop number cnt entries in
      if below cnt number && entry.connected then node_info entry ∷ counted else skipped

  unfoldable pub get_kad_peers : List KadEntry → ℕ → List NodeInfo
  get_kad_peers entries number = kad_loop number 0 entries

  -- One request of a server node: what it does, and whether it is done without a panic. `alive` tells
  -- the receivers that still wait, and `publishes` which messages gossipsub takes: it refuses one that it
  -- has no peers for.
  unfoldable pub server_request :
      (ℕ → Bool) → (List ℕ → Bool) → List KadEntry → NodeRequest → List SwarmEffect × Bool
  server_request alive publishes entries (proxy_request r) =
      completes (Option.map (λ x. send_proxy r.remote_peer_id x ∷ []) r.proxy_request)
  server_request alive publishes entries (cmd_request r) =
      completes (Option.map (λ x. send_cmd r.remote_peer_id x ∷ []) r.cmd_request)
  server_request alive publishes entries (ack_request r) =
      completes (Option.map (λ x. send_ack_to r.remote_peer_id x ∷ []) r.ack_request)
  server_request alive publishes entries (new_stream_request r) = (open_stream r.peer_id ∷ [], true)
  server_request alive publishes entries (add_peer_addresses_request r) =
      (learn_addresses r.remote_peer_id r.remote_addr ∷ [], true)
  server_request alive publishes entries (get_main_nets_request r) =
      if alive r.sender
      then (resolve_peers r.sender (get_kad_peers entries r.num) ∷ [], true)
      else ([], false)
  -- The message is out before the receiver is looked at.
  server_request alive publishes entries (publish_data r) =
      if publishes r.payload
      then (
        gossip r.payload ∷ (if alive r.sender then resolve_published r.sender ∷ [] else []),
        alive r.sender,
      )
      else ([], false)

-- The same of a client node, which drops the sender of the last two kinds.
unfoldable pub client_request : NodeRequest → Option (List SwarmEffect)
client_request (proxy_request r) =
    Option.map (λ x. send_proxy r.remote_peer_id x ∷ []) r.proxy_request
client_request (cmd_request r) = Option.map (λ x. send_cmd r.remote_peer_id x ∷ []) r.cmd_request
client_request (ack_request r) = Option.map (λ x. send_ack_to r.remote_peer_id x ∷ []) r.ack_request
client_request (new_stream_request r) = some (open_stream r.peer_id ∷ [])
client_request (add_peer_addresses_request r) =
    some (learn_addresses r.remote_peer_id r.remote_addr ∷ [])
client_request (get_main_nets_request r) = some []
client_request (publish_data r) = some []
