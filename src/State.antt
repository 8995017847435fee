-- ===== src/State.antt =====
-- The data of a node: network/session.rs, network/node.rs (Node, Probe), network/connection.rs
-- (CircuitConn), models/client_info.rs and the handle part of network/protocols/relay_behaviour.rs.
use white_noise_rs.Prelude.{ℕ, String, Bool, ◌&&◌, Option, List, [], is_some}
use white_noise_rs.HashMap.{HashMap, empty}
use white_noise_rs.Proto.{Request, Command, Ack}
use white_noise_rs.Host.{PeerId, Keypair}

-- A clone of a WrappedStream shares the stream's channels with all others: a handle is its identity.
pub record WrappedStream : Type 0 where
  pub remote_peer_id : PeerId
  pub stream_id : String

pub data SessionRole : Type 0 where
  caller_role entry_role sink_role relay_role access_role answer_role : SessionRole

-- `role as i32`: the first has 1.
abbrev pub role_i32 : SessionRole → ℕ
role_i32 caller_role = 1
role_i32 entry_role = 2
role_i32 sink_role = 3
role_i32 relay_role = 4
role_i32 access_role = 5
role_i32 answer_role = 6

pub record PairStream : Type 0 where
  pub early_stream : Option WrappedStream
  pub later_stream : Option WrappedStream

pub record Session : Type 0 where
  pub id : String
  pub pair_stream : PairStream
  pub open pair_stream use *
  pub session_role : ℕ

unfoldable pub ready : Session → Bool
ready s = is_some s.early_stream && is_some s.later_stream

-- `time` is a Duration in seconds.
pub record ClientInfo : Type 0 where
  pub whitenoise_id : String
  pub peer_id : PeerId
  pub state : ℕ
  pub time : ℕ

pub record Probe : Type 0 where
  pub session_id : String
  pub rand : List ℕ

-- `channel` names the unbounded channel whose two ends the clones share; `transport_state` names
-- the shared noise state once the handshake is over.
pub record CircuitConn : Type 0 where
  pub id : String
  pub out_stream : WrappedStream
  pub channel : ℕ
  pub transport_state : Option ℕ

-- What all clones of a Node share behind Arc<RwLock<…>>. A waiting oneshot receiver is named by a
-- number, and `next_channel` is the next unused name.
pub record Shared : Type 0 where
  pub event_bus : HashMap String ℕ
  pub relay_in_streams : List WrappedStream
  pub relay_out_streams : List WrappedStream
  pub circuit_task : HashMap String (List ℕ)
  pub client_wn_map : HashMap String ClientInfo
  pub client_peer_map : HashMap String String
  pub session_map : HashMap String Session
  pub circuit_map : HashMap String CircuitConn
  pub probe_map : HashMap String Probe
  pub next_channel : ℕ

-- What each clone has for itself.
pub record Local : Type 0 where
  pub keypair : Keypair
  pub proxy_id : Option PeerId
  pub boot_peer_id : Option PeerId

-- host.rs `start`: all maps and queues begin empty.
unfoldable pub new_shared : Shared
new_shared = record {
  event_bus = empty;
  relay_in_streams = [];
  relay_out_streams = [];
  circuit_task = empty;
  client_wn_map = empty;
  client_peer_map = empty;
  session_map = empty;
  circuit_map = empty;
  probe_map = empty;
  next_channel = 0;
}

-- whitenoise_behaviour.rs: what a handler asks of the swarm's event loop.
pub data PeerOperation : Type 0 where
  disconnects : PeerOperation

pub record NodeProxyRequest : Type 0 where
  pub remote_peer_id : PeerId
  pub proxy_request : Option Request
  pub peer_operation : Option PeerOperation

pub record NodeCmdRequest : Type 0 where
  pub remote_peer_id : PeerId
  pub cmd_request : Option Command

pub record NodeAckRequest : Type 0 where
  pub remote_peer_id : PeerId
  pub ack_request : Option Ack

pub record NodeNewStream : Type 0 where
  pub peer_id : PeerId

pub record AddPeerAddresses : Type 0 where
  pub remote_peer_id : PeerId
  pub remote_addr : List String

-- `sender` names the oneshot channel that the answer goes to.
pub record GetMainNets : Type 0 where
  pub command_id : String
  pub remote_peer_id : PeerId
  pub num : ℕ
  pub sender : ℕ

pub record PublishDataRequest : Type 0 where
  pub payload : List ℕ
  pub sender : ℕ

pub data NodeRequest : Type 0 where
  proxy_request : NodeProxyRequest → NodeRequest
  cmd_request : NodeCmdRequest → NodeRequest
  ack_request : NodeAckRequest → NodeRequest
  new_stream_request : NodeNewStream → NodeRequest
  add_peer_addresses_request : AddPeerAddresses → NodeRequest
  get_main_nets_request : GetMainNets → NodeRequest
  publish_data : PublishDataRequest → NodeRequest
