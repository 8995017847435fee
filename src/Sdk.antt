-- ===== src/Sdk.antt =====
-- sdk/client.rs and the loop of sdk/host.rs: what a client, or a server, does with new streams and circuits.
pub mod Streams
pub mod Sessions
pub mod Rounds
pub mod Bootstrap
pub mod Start
pub mod Starting
use white_noise_rs.Prelude.{
  ℕ, zero, suc, String, Bool, true, false, Option, none, some, List, [], ◌∷◌, length, is_some, ◌==◌,
  ℕ_eq, string_eq, if◌then◌else◌,
}
use mathlib.Core.Option
use white_noise_rs.HashMap.{HashMap, get, insert, contains_key, empty}
use white_noise_rs.Proto.{NodeInfo}
use white_noise_rs.Host.{Host, PeerId}
use white_noise_rs.State.{CircuitConn}
use white_noise_rs.Task.{
  Task, spawn_relay_handler, announce, as_next_session, wait_for, pure, unwrap, out_of_fuel, panic,
  reads, asks, emit, sleep, ◌>>=◌, ◌>>◌,
}
use white_noise_rs.Node.Streams.{wait_for_relay_stream}
use white_noise_rs.Node.Sessions.{handle_close_session}
use white_noise_rs.Account.{from_keypair_to_whitenoise_id}
use white_noise_rs.Peers.{peer_of_text}
use white_noise_rs.Client.{get_main_nets, register_proxy, dial}
use white_noise_rs.Connection.{send_message}

-- Each stream that another node has opened gets a task of its own. The loop runs for ever: the fuel bounds
-- the streams that are looked at.
unfoldable pub process_new_stream : ℕ → Task (Unit {0})
process_new_stream zero = out_of_fuel
process_new_stream (suc fuel) = do
  stream ← λ w. wait_for_relay_stream (suc (length w.inputs)) w
  emit (spawn_relay_handler stream none)
  process_new_stream fuel

-- The circuit that the walk over the map is left with: the last that is not announced yet.
unfoldable pub last_unseen :
    HashMap String Bool
    → List (String × CircuitConn)
    → Option (String × CircuitConn)
    → Option (String × CircuitConn)
last_unseen exist_session [] found = found
last_unseen exist_session ((session_id, circuit_conn) ∷ rest) found =
    last_unseen exist_session rest
      (if contains_key exist_session session_id then found else some (session_id, circuit_conn))

-- It is announced once its handshake is over.
unfoldable pub announce_circuit :
    HashMap String Bool → Option (String × CircuitConn) → Task (HashMap String Bool)
announce_circuit exist_session none = pure exist_session
announce_circuit exist_session (some (session_id, cc)) =
    if is_some cc.transport_state
    then (do emit (announce session_id); pure (insert exist_session session_id true))
    else pure exist_session

-- `iter` is the order in which std walks over a map.
module _ (iter : HashMap String CircuitConn → List (String × CircuitConn)) where
  unfoldable pub new_session_round : HashMap String Bool → Task (HashMap String Bool)
  new_session_round exist_session = do
    circuits ← reads (λ s. iter s.circuit_map)
    if length circuits == 0
        then pure exist_session
        else announce_circuit exist_session (last_unseen exist_session circuits none)

  unfoldable pub new_session_loop : ℕ → HashMap String Bool → Task (Unit {0})
  new_session_loop zero exist_session = out_of_fuel
  new_session_loop (suc fuel) exist_session = do
    next ← new_session_round exist_session
    sleep
    new_session_loop fuel next

  -- Each round takes an input, so a round more than there are inputs is enough.
  unfoldable pub process_new_session : Task (Unit {0})
  process_new_session w = new_session_loop (suc (length w.inputs)) empty w

unfoldable pub get_circuit : String → Task (Option CircuitConn)
get_circuit session_id = reads (λ s. get s.circuit_map session_id)

unfoldable pub disconnect_circuit : String → Task (Unit {0})
disconnect_circuit session_id = handle_close_session session_id

module _ (host : Host) where
  -- PeerId::from_bytes of every id; `none` is a panic.
  unfoldable pub peers_of : List NodeInfo → Option (List PeerId)
  peers_of [] = some []
  peers_of (x ∷ rest) =
      Option.bind (peer_of_text host x.id)
        (λ peer. Option.map (λ others. peer ∷ others) (peers_of rest))

  -- The count that is asked for is not used.
  unfoldable pub get_main_net_peers : String → PeerId → ℕ → Task (List PeerId)
  get_main_net_peers bootstrap_addr_str bootstrap_peer_id cnt =
      if host.valid_addr bootstrap_addr_str
      then (do
        peer_list ← get_main_nets host 10 bootstrap_peer_id bootstrap_addr_str
        unwrap (peers_of peer_list.peers))
      else panic

  unfoldable pub get_whitenoise_id : Task String
  get_whitenoise_id = do
    keypair ← asks (λ l. l.keypair)
    unwrap (from_keypair_to_whitenoise_id host keypair)

unfoldable pub notify_next_session : Task (Option String)
notify_next_session = wait_for as_next_session
