-- ===== src/Witnesses/Setting.antt =====
-- A host with short ids and plain codecs, and nodes that have one session each.
use white_noise_rs.Prelude.{
  ℕ, String, true, Option, none, some, List, [], ◌∷◌, ◌==◌, string_eq, bytes_eq, if◌then◌else◌,
}
use white_noise_rs.HashMap.{empty, insert}
use white_noise_rs.Proto.{Relay}
use white_noise_rs.Host.{Codec, Host, PeerId, ed25519}
use white_noise_rs.State.{
  WrappedStream, Session, CircuitConn, Shared, Local, SessionRole, role_i32, new_shared,
}
use white_noise_rs.Task.{Answer, Input, World}

abbrev pub short_text : List ℕ → String
short_text b = if b == (1 ∷ []) then "a" else if b == (2 ∷ []) then "b" else ""

abbrev pub short_bytes : String → Option (List ℕ)
short_bytes s = if s == "a" then some (1 ∷ []) else if s == "b" then some (2 ∷ []) else none

abbrev pub unused : {A : Type 0} → Codec A
unused = record { encode = λ a. []; decode = λ b. none }

abbrev pub relay_of : List ℕ → Option Relay
relay_of [] = none
relay_of (t ∷ b) = some (record { id = ""; type = t; payload = b; confusion = [] })

abbrev pub first_or_zero : List ℕ → ℕ
first_or_zero [] = 0
first_or_zero (x ∷ xs) = x

abbrev pub host : Host
host = record {
  sha256 = λ b. b;
  bs58_encode = short_text;
  bs58_decode = short_bytes;
  valid_peer = λ b. true;
  valid_addr = λ a. true;
  peer_of_keypair = λ k. record { bytes = 9 ∷ [] };
  random_peer = λ n. record { bytes = n ∷ [] };
  sha512 = λ b. b;
  secp256k1_uncompressed = λ b. some b;
  ecies_ed25519_encrypt = λ key b. some b;
  ecies_ed25519_decrypt = λ key b. some b;
  ecies_encrypt = λ key b. some b;
  ecies_decrypt = λ key b. some b;
  request = unused;
  new_circuit = record {
    encode = λ a. [];
    decode = λ b. some (record { from = "a"; to = "b"; session_id = "s" });
  };
  new_proxy = record {
    encode = λ a. [];
    decode = λ b. some (record { time = ""; white_noise_id = if b == [] then "0a" else "0b" });
  };
  decrypt = record {
    encode = λ a. a.cypher;
    decode = λ b. some (record { destination = "b"; cypher = b });
  };
  neg_plaintext = unused;
  main_net_peers = unused;
  peers_list = unused;
  command = unused;
  session_expend = record {
    encode = λ a. [];
    decode = λ b. some (record { session_id = "s"; peer_id = "b" });
  };
  ack = unused;
  negotiate = unused;
  encrypted_neg = unused;
  relay = record { encode = λ r. r.type ∷ r.payload; decode = relay_of };
  set_session_id_msg = record {
    encode = λ m. m.role ∷ [];
    decode = λ b. some (record { session_id = "s"; role = first_or_zero b });
  };
  relay_msg = record {
    encode = λ m. m.payload;
    decode = λ b. some (record { session_id = "s"; payload = b });
  };
  probe_signal = record {
    encode = λ m. m.payload;
    decode = λ b. some (record { session_id = "s"; payload = b });
  };
  disconnect = unused;
  circuit_success = unused;
}

abbrev pub peer : ℕ → PeerId
peer n = record { bytes = n ∷ [] }

abbrev pub stream_a : WrappedStream
stream_a = record { remote_peer_id = peer 1; stream_id = "a" }

abbrev pub stream_b : WrappedStream
stream_b = record { remote_peer_id = peer 2; stream_id = "b" }

abbrev pub stream_c : WrappedStream
stream_c = record { remote_peer_id = peer 3; stream_id = "c" }

-- One stream, or two.
abbrev pub half_open : SessionRole → Session
half_open role = record {
  id = "s";
  pair_stream = record { early_stream = some stream_a; later_stream = none };
  session_role = role_i32 role;
}

abbrev pub full_open : SessionRole → Session
full_open role = record {
  id = "s";
  pair_stream = record { early_stream = some stream_a; later_stream = some stream_b };
  session_role = role_i32 role;
}

abbrev pub conn : CircuitConn
conn = record { id = "s"; out_stream = stream_a; channel = 0; transport_state = none }

abbrev pub node_with : Session → Shared
node_with session = record new_shared { session_map = insert empty "s" session }

abbrev pub local : Local
local = record {
  keypair = ed25519 (7 ∷ []) (8 ∷ []);
  proxy_id = none;
  boot_peer_id = some (peer 5);
}

abbrev pub quiet : Answer → Input
quiet a = record { answer = a; others = λ s. s }

abbrev pub world : Shared → List Input → World
world s inputs = record {
  shared = s;
  local = local;
  out = [];
  inputs = inputs;
  entropy = λ n. 0;
  drawn = 0;
  seen = [];
}
