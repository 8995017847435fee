-- ===== src/Witnesses/Sessions.antt =====
-- Runs of joining and closing sessions, and of commands.
use white_noise_rs.Prelude.{String, ◌≡◌, refl, none, some, List, [], ◌∷◌, string_eq, true}
use white_noise_rs.HashMap.{get, empty, get-insert, get-empty}
use white_noise_rs.Proto.{Relay, SetSessionIdMsg, NodeInfo}
use white_noise_rs.State.{ready, Session, entry_role, relay_role, sink_role, role_i32, new_shared}
use white_noise_rs.Task.{read_ok, World, elapsed, done, stream_close}
use white_noise_rs.Utils.Sending.{sent, farewell}
use white_noise_rs.Node.Sessions.{handle_close_session}
use white_noise_rs.Node.Closing.{handle_close_session_clears}
use white_noise_rs.RelayEvents.Joining.{handle_set_session}
use white_noise_rs.RelayEvents.Roles.{
  set_session_ack, replaced, set_session_joins, set_session_drops, set_session_replaces,
}
use white_noise_rs.Peers.{pick_peer}
use white_noise_rs.Peers.Picking.{Picked, pick_peer_fresh}
use white_noise_rs.Task.{resolved, Input}
use white_noise_rs.Node.Sessions.{new_session_to_peer}
use white_noise_rs.Connection.Roundtrip.{heard}
use white_noise_rs.Utils.Ids.{from_bytes_get_id}
use white_noise_rs.Opening.{agreed, naming, sessions_meet}
use white_noise_rs.RelayEvents.{on_relay}
use white_noise_rs.Node.Sessions.{joined}
use white_noise_rs.Witnesses.Setting.{
  host, stream_a, stream_b, stream_c, peer, half_open, full_open, node_with, quiet, world,
}

found : (session : Session) → get (node_with session).session_map "s" ≡ some session
found session = get-insert empty "s" "s" session

abbrev node : Session → World
node session = world (node_with session) (quiet elapsed ∷ [])

handle_close_session_clears_example :
    ((handle_close_session "s" (node (full_open sink_role))).0 ≡ done tt)
    × (get (handle_close_session "s" (node (full_open sink_role))).1.shared.session_map "s" ≡ none)
handle_close_session_clears_example =
    let cleared = handle_close_session_clears "s" "s" (node (full_open sink_role)) in
    (cleared.0, cleared.2)

abbrev from_relay : SetSessionIdMsg
from_relay = record { session_id = "s"; role = role_i32 relay_role }

set_session_joins_example :
    get
      (handle_set_session host from_relay stream_b "m"
        (node (half_open sink_role))).1.shared.session_map
      "s"
    ≡ some (full_open sink_role)
set_session_joins_example =
    (set_session_joins host from_relay stream_b "m" (node (half_open sink_role))
      (some (half_open sink_role)) "s" (found (half_open sink_role)) refl).1

set_session_drops_example :
    (handle_set_session host from_relay stream_b "m" (node (half_open entry_role))).1.out
    ≡ stream_close stream_a ∷ []
unfolding ready
set_session_drops_example =
    (set_session_drops host from_relay stream_b "m" (node (half_open entry_role))
      (half_open entry_role) (found (half_open entry_role)) refl refl).1

set_session_replaces_example :
    let w = node (full_open entry_role) in
    let v =
      sent host stream_b
        (farewell host "s")
        (quiet elapsed)
        []
        (replaced (full_open entry_role) from_relay stream_c w) in
    handle_set_session host from_relay stream_c "m" w
    ≡ (done tt, record v { out = set_session_ack stream_c "m" ∷ stream_close stream_b ∷ v.out })
unfolding ready
set_session_replaces_example =
    set_session_replaces host from_relay stream_c "m" (node (full_open entry_role))
      (full_open entry_role) stream_b (quiet elapsed) [] (found (full_open entry_role)) refl refl
      refl refl refl

abbrev two_nodes : List NodeInfo
two_nodes = record { id = "a"; addr = [] } ∷ record { id = "b"; addr = [] } ∷ []

pick_peer_fresh_example :
    Picked host two_nodes "a" "x" empty
      (peer 5)
      (peer 6)
      (world new_shared [])
      refl
      (pick_peer host two_nodes "a" "x" 2 empty 0 (peer 6) (world new_shared []))
pick_peer_fresh_example =
    pick_peer_fresh host two_nodes "a" "x" empty (peer 5) (peer 6) (world new_shared []) refl 2 0

abbrev ticks : Input
ticks = quiet elapsed

abbrev agrees : Input
agrees = quiet (resolved (agreed ""))

abbrev dialing : World
dialing =
    world (record new_shared { relay_out_streams = stream_b ∷ [] }) (ticks ∷ ticks ∷ agrees ∷ [])

abbrev message : Relay
message = naming host stream_b [] "s" 1 dialing ticks ticks agrees []

abbrev arrival : Input
arrival = quiet (read_ok (host.relay.encode message))

abbrev dialed : World
dialed = world new_shared (arrival ∷ [])

sessions_meet_example :
    (get (on_relay host stream_a none message (heard dialed arrival [])).1.shared.session_map "s"
      ≡ some (joined none "s" 1 stream_a))
    × ((on_relay host stream_a none message (heard dialed arrival [])).1.out
        ≡ set_session_ack stream_a message.id ∷ [])
    × ((new_session_to_peer host (peer 2) "s" 2 1 dialing).0 ≡ done (some stream_b))
unfolding from_bytes_get_id new_shared
sessions_meet_example =
    let r =
      sessions_meet host stream_b [] "s" 1 dialing ticks ticks agrees [] stream_a 2 none (λ c. true)
        (peer 1) dialed arrival [] refl refl refl refl refl refl refl refl refl
        (get-empty {K = String} {V = Session} "s") refl refl refl in
    (r.2, r.3, r.5)
