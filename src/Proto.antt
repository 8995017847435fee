-- ===== src/Proto.antt =====
-- The protobuf messages (*.proto) as prost lays them out: an enum field is an i32. An i32 is kept as
-- its bit pattern, a number below 2 ^ 32. The proto field `data` is `payload` here.
use white_noise_rs.Prelude.{ℕ, String, Bool, List}

pub data Reqtype : Type 0 where
  get_online_nodes new_proxy new_circuit decrypt_gossip neg_plain_text un_register_type
        main_net_peers :
      Reqtype

abbrev pub reqtype_i32 : Reqtype → ℕ
reqtype_i32 get_online_nodes = 0
reqtype_i32 new_proxy = 1
reqtype_i32 new_circuit = 2
reqtype_i32 decrypt_gossip = 3
reqtype_i32 neg_plain_text = 4
reqtype_i32 un_register_type = 5
reqtype_i32 main_net_peers = 6

pub data Relaytype : Type 0 where
  set_session_id acked relay_data disconnected wake probe success : Relaytype

abbrev pub relaytype_i32 : Relaytype → ℕ
relaytype_i32 set_session_id = 0
relaytype_i32 acked = 1
relaytype_i32 relay_data = 2
relaytype_i32 disconnected = 3
relaytype_i32 wake = 4
relaytype_i32 probe = 5
relaytype_i32 success = 6

pub data Cmdtype : Type 0 where
  session_ex_pend cmd_disconnect : Cmdtype

abbrev pub cmdtype_i32 : Cmdtype → ℕ
cmdtype_i32 session_ex_pend = 0
cmdtype_i32 cmd_disconnect = 1

-- request.proto
pub record Request : Type 0 where
  pub req_id : String
  pub from : String
  pub reqtype : ℕ
  pub payload : List ℕ

pub record NewCircuit : Type 0 where
  pub from : String
  pub to : String
  pub session_id : String

pub record NewProxy : Type 0 where
  pub time : String
  pub white_noise_id : String

pub record Decrypt : Type 0 where
  pub destination : String
  pub cypher : List ℕ

pub record NegPlaintext : Type 0 where
  pub session_id : String
  pub neg : List ℕ

pub record MainNetPeers : Type 0 where
  pub max : ℕ

pub record NodeInfo : Type 0 where
  pub id : String
  pub addr : List String

pub record PeersList : Type 0 where
  pub peers : List NodeInfo

-- command.proto
pub record Command : Type 0 where
  pub command_id : String
  pub type : ℕ
  pub from : String
  pub payload : List ℕ

pub record SessionExpend : Type 0 where
  pub session_id : String
  pub peer_id : String

pub record Ack : Type 0 where
  pub command_id : String
  pub result : Bool
  pub payload : List ℕ

-- gossip.proto
pub record Negotiate : Type 0 where
  pub join : String
  pub session_id : String
  pub destination : String
  pub sig : List ℕ

pub record EncryptedNeg : Type 0 where
  pub des : String
  pub cypher : List ℕ

-- relay.proto
pub record Relay : Type 0 where
  pub id : String
  pub type : ℕ
  pub payload : List ℕ
  pub confusion : List ℕ

pub record SetSessionIdMsg : Type 0 where
  pub session_id : String
  pub role : ℕ

pub record RelayMsg : Type 0 where
  pub session_id : String
  pub payload : List ℕ

pub record ProbeSignal : Type 0 where
  pub session_id : String
  pub payload : List ℕ

pub record Disconnect : Type 0 where
  pub session_id : String
  pub err_code : ℕ

pub record CircuitSuccess : Type 0 where
  pub session_id : String

-- payload.proto; `data` is not used.
pub record NoiseHandshakePayload : Type 0 where
  pub identity_key : List ℕ
  pub identity_sig : List ℕ
