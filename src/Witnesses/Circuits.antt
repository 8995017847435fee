-- ===== src/Witnesses/Circuits.antt =====
-- Runs of messages through circuits.
use white_noise_rs.Prelude.{
  arith, ◌⊎◌, ◌≢◌, All, string_eq, ◌≡◌, refl, none, some, [], ◌∷◌, inl, inr,
}
use white_noise_rs.HashMap.{get, insert, empty, get-insert}
use white_noise_rs.Proto.{
  ProbeSignal, Relay, RelayMsg, relaytype_i32, relay_data, probe, set_session_id,
}
use white_noise_rs.State.{Session, relay_role, sink_role, answer_role, new_shared}
use white_noise_rs.Task.{World, read_ok, spent, elapsed, done, circuit_send}
use white_noise_rs.Delivery.{Hop, IsBetween, carry, carry_delivers}
use white_noise_rs.Proxy.{process_proxy_request}
use white_noise_rs.Cmd.{process_cmd_request}
use white_noise_rs.Publish.{process_publish_request}
use white_noise_rs.Termination.{handlers_end}
use white_noise_rs.Invariant.Updates.{Fits, new_shared-Fits}
use white_noise_rs.Invariant.RelayLoop.{relay_event_handler-Fits}
use white_noise_rs.Utils.Write.{new_relay_circuit_success}
use white_noise_rs.RelayEvents.{relay_event_handler, on_read_error}
use white_noise_rs.RelayEvents.Probing.{handle_relay_probe}
use white_noise_rs.RelayEvents.Sink.{probes_meet, twoway_effects}
use white_noise_rs.RelayEvents.Delivery.{Owns, on_read_error_closes_own}
use white_noise_rs.Node.Closing.{closed}
use white_noise_rs.RelayEvents.Circuits.{handle_relay_msg}
use white_noise_rs.Witnesses.Setting.{
  host, stream_a, stream_b, full_open, half_open, conn, node_with, quiet, world,
}

abbrev data_message : Relay
data_message = record {
  id = "";
  type = relaytype_i32 relay_data;
  payload = 40 ∷ 41 ∷ [];
  confusion = [];
}

abbrev data_content : RelayMsg
data_content = record { session_id = "s"; payload = 40 ∷ 41 ∷ [] }

pub node_with-session : (session : Session) → get (node_with session).session_map "s" ≡ some session
node_with-session session = get-insert empty "s" "s" session

abbrev pub relay_hop : Hop
relay_hop = record {
  world = world (node_with (full_open relay_role)) (quiet elapsed ∷ []);
  stream = stream_a;
}

abbrev pub sink_hop : Hop
sink_hop = record {
  world = world (node_with (full_open sink_role)) (quiet elapsed ∷ []);
  stream = stream_b;
}

abbrev answer_node : World
answer_node =
    world (record (node_with (half_open answer_role)) { circuit_map = insert empty "s" conn }) []

pub relay_hop-IsBetween : IsBetween host "s" relay_hop
relay_hop-IsBetween = record {
  session = full_open relay_role;
  early = stream_a;
  later = stream_b;
  tick = quiet elapsed;
  rest = [];
  open_session = node_with-session (full_open relay_role);
  has_early = refl;
  has_later = refl;
  distinct = refl;
  between = refl;
  place = inl refl;
  next = refl;
  ticks = refl;
}

pub sink_hop-IsBetween : IsBetween host "s" sink_hop
sink_hop-IsBetween = record {
  session = full_open sink_role;
  early = stream_a;
  later = stream_b;
  tick = quiet elapsed;
  rest = [];
  open_session = node_with-session (full_open sink_role);
  has_early = refl;
  has_later = refl;
  distinct = refl;
  between = refl;
  place = inr refl;
  next = refl;
  ticks = refl;
}

carry_delivers_example :
    (arrived : Relay) × (carry host "s" (relay_hop ∷ sink_hop ∷ []) data_message ≡ some arrived)
    × (arrived.payload ≡ 40 ∷ 41 ∷ [])
    × (handle_relay_msg host arrived stream_a answer_node
        ≡ (done tt, record answer_node { out = circuit_send 0 (40 ∷ 41 ∷ []) ∷ [] }))
carry_delivers_example =
    carry_delivers host "s" data_content refl (relay_hop ∷ sink_hop ∷ []) data_message stream_a
      answer_node (half_open answer_role) conn 1 (λ r. (_, refl, refl, refl))
      (λ r. (omega arith, omega arith)) (omega arith)
      (relay_hop-IsBetween, (sink_hop-IsBetween, tt)) (refl, refl)
      (node_with-session (half_open answer_role)) refl (get-insert empty "s" "s" conn)

abbrev probe_message : Relay
probe_message = record { id = ""; type = relaytype_i32 probe; payload = 40 ∷ []; confusion = [] }

abbrev sink_node : World
sink_node = world (node_with (full_open sink_role)) []

probes_meet_example :
    let w1 = (handle_relay_probe host "s" stream_a probe_message sink_node).1 in
    let r = handle_relay_probe host "s" stream_b probe_message w1 in
    (r.1.out ≡ twoway_effects (full_open sink_role) (new_relay_circuit_success host "s") [])
    × (get r.1.shared.session_map "s" ≡ some (full_open sink_role))
unfolding get insert empty new_shared
probes_meet_example =
    let content : ProbeSignal = record { session_id = "s"; payload = 40 ∷ [] } in
    let met =
      probes_meet host "s" (full_open sink_role) stream_a stream_b probe_message probe_message
        content content sink_node refl refl refl (node_with-session (full_open sink_role)) refl in
    (met.3, met.4)

on_read_error_closes_own_example :
    (on_read_error stream_b none sink_node ≡ (done tt, sink_node))
    × ((Owns sink_node "s" stream_b
          × (on_read_error stream_b (some "s") sink_node ≡ (done tt, closed "s" sink_node)))
        ⊎ ((¬ Owns sink_node "s" stream_b)
            × (on_read_error stream_b (some "s") sink_node ≡ (done tt, sink_node))))
on_read_error_closes_own_example = on_read_error_closes_own stream_b "s" sink_node

-- A stream on which a SetSessionId message comes in.
abbrev joining : World
joining = world new_shared (quiet (read_ok (relaytype_i32 set_session_id ∷ 4 ∷ [])) ∷ [])

relay_event_handler-Fits_example :
    let r = relay_event_handler host stream_a none joining in
    Fits host 0 r.1.shared × All (Fits host 0) r.1.seen
relay_event_handler-Fits_example =
    relay_event_handler-Fits host stream_a none joining (new_shared-Fits host) (λ s h. h, tt) tt

handlers_end_example :
    ((relay_event_handler host stream_a none joining).0 ≢ spent)
    × ((process_proxy_request host joining).0 ≢ spent)
    × ((process_cmd_request host joining).0 ≢ spent)
    × ((process_publish_request host joining).0 ≢ spent)
handlers_end_example = handlers_end host stream_a none joining
