-- ===== src/Interleaving/Invariance.antt =====
-- Every interleaving of the tasks of a node keeps the invariant.
use white_noise_rs.Prelude.{
  ◌∷◌, ◌≤◌, ◌++◌, ℕ, suc, String, Bool, ◌≡◌, List, [], length, All, arith, All-append,
}
use white_noise_rs.HashMap.{HashMap, empty}
use white_noise_rs.Host.{Host}
use white_noise_rs.State.{CircuitConn, Shared}
use white_noise_rs.Task.{World}
use white_noise_rs.Task.Keeps.{Rely, Sound, Preserves-bind, Preserves-Keeps, Keeps-pure}
use white_noise_rs.Invariant.Updates.{
  Fits, event_bus-Fits, in_streams-Fits, out_streams-Fits, new_shared-Fits,
}
use white_noise_rs.Invariant.Sessions.{handle_close_session-Keeps}
use white_noise_rs.Invariant.RelayLoop.{relay_event_handler-Fits}
use white_noise_rs.Invariant.Loops.{
  process_proxy_request-Fits, process_cmd_request-Fits, process_publish_request-Fits,
}
use white_noise_rs.Invariant.Handshakes.{process_handshake-Keeps}
use white_noise_rs.Invariant.Sdk.{process_new_stream-Preserves, new_session_loop-Preserves}
use white_noise_rs.Client.Calls.{dial-Keeps, register_proxy-Keeps, get_main_nets-Keeps}
use white_noise_rs.Handshake.{Noise}
use white_noise_rs.Sdk.{process_new_session}
use white_noise_rs.Swarm.{
  RelayEvent, relay_inbound, relay_outbound, relay_disconnect, inject_relay_event,
  RequestResponseEvent, inject_ack_event, request_message,
}
use white_noise_rs.Proto.{Ack}
use white_noise_rs.Interleaving.{
  begins, next, starts, resumes, relay_event, ack_event, NodeTask, Running, floor_of, program,
  System, Answer, Reach, heard, Step, starts, resumes, next,
}

inject_relay_event-Fits :
    {host : Host} {floor : ℕ} (e : RelayEvent) (s : Shared)
    → Fits host floor s
    → Fits host floor (inject_relay_event e s).0
unfolding inject_relay_event
inject_relay_event-Fits (relay_inbound x) s h = in_streams-Fits h _
inject_relay_event-Fits (relay_outbound x) s h = out_streams-Fits h _
inject_relay_event-Fits (relay_disconnect p) s h = h

inject_ack_event-Fits :
    {host : Host} {floor : ℕ} (alive : ℕ → Bool) (e : RequestResponseEvent Ack) (s : Shared)
    → Fits host floor s
    → Fits host floor (inject_ack_event alive e s).1
unfolding inject_ack_event
inject_ack_event-Fits alive (request_message p ack) s h = event_bus-Fits h _
inject_ack_event-Fits alive RequestResponseEvent.inbound_failure s h = h
inject_ack_event-Fits alive RequestResponseEvent.outbound_failure s h = h
inject_ack_event-Fits alive RequestResponseEvent.response_sent s h = h
inject_ack_event-Fits alive RequestResponseEvent.response_message s h = h

-- A system fits if its maps do and no task has met maps that did not.
Healthy : Host → Running → Type 0
Healthy host r =
    Fits host (floor_of r.task) r.begun.shared
    × Rely (Fits host (floor_of r.task)) r.begun.inputs
    × (r.begun.seen ≡ [])

module _ {S : Type 0} (host : Host) (noise : Noise S)
    (iter : HashMap String CircuitConn → List (String × CircuitConn)) where
  program-Fits :
      (t : NodeTask) (w : World)
      → Sound (Fits host (floor_of t)) w
      → Fits host (floor_of t) (program host noise iter t w).1.shared
  unfolding program process_new_session
  program-Fits (NodeTask.relay_events stream id) w h =
      (relay_event_handler-Fits host stream id w h.0 h.1 h.2).0
  program-Fits NodeTask.proxy_requests w h = (process_proxy_request-Fits host w h.0 h.1 h.2).0
  program-Fits NodeTask.cmd_requests w h = (process_cmd_request-Fits host w h.0 h.1 h.2).0
  program-Fits NodeTask.publish_requests w h = (process_publish_request-Fits host w h.0 h.1 h.2).0
  program-Fits NodeTask.new_sessions w h =
      ((new_session_loop-Preserves host iter (suc (length w.inputs)) empty).at w h).0
  program-Fits (NodeTask.new_streams fuel) w h = ((process_new_stream-Preserves host fuel).at w h).0
  program-Fits (NodeTask.handshake c b) w h = ((process_handshake-Keeps host noise c b).at w h).0
  program-Fits (NodeTask.dials id) w h =
      ((Preserves-bind _ _ (Preserves-Keeps (dial-Keeps host id))
          (λ _. Preserves-Keeps (Keeps-pure tt))).at
        w h).0
  program-Fits (NodeTask.registers p) w h =
      ((Preserves-bind _ _ (Preserves-Keeps (register_proxy-Keeps host p))
          (λ _. Preserves-Keeps (Keeps-pure tt))).at
        w h).0
  program-Fits (NodeTask.lists_nets cnt p addr) w h =
      ((Preserves-bind _ _ (Preserves-Keeps (get_main_nets-Keeps host cnt p addr))
          (λ _. Preserves-Keeps (Keeps-pure tt))).at
        w h).0
  program-Fits (NodeTask.closes id) w h = ((handle_close_session-Keeps host id).at w h).0

raise :
    {host : Host} {floor : ℕ} {s : Shared}
    → floor ≤ s.next_channel
    → Fits host 0 s
    → Fits host floor s
raise made h = record {
  sessions = h.sessions;
  circuits = h.circuits;
  probes = h.probes;
  clients = h.clients;
  channels = made;
}

lower : {host : Host} {floor : ℕ} {s : Shared} → Fits host floor s → Fits host 0 s
lower h = record {
  sessions = h.sessions;
  circuits = h.circuits;
  probes = h.probes;
  clients = h.clients;
  channels = omega arith;
}

All-here :
    {A : Type 0} (P : A → Type 0) (before after : List A) (x : A)
    → All P (before ++ x ∷ after)
    → P x
All-here P [] after x h = h.0
All-here P (y ∷ before) after x h = All-here P before after x h.1

All-replace :
    {A : Type 0} (P : A → Type 0) (before after : List A) (x y : A)
    → All P (before ++ x ∷ after)
    → P y
    → All P (before ++ y ∷ after)
All-replace P [] after x y h k = (k, h.1)
All-replace P (z ∷ before) after x y h k = (h.0, All-replace P before after x y h.1 k)

heard-Healthy :
    (host : Host) (r : Running) (a : Answer) (s : Shared)
    → Fits host (floor_of r.task) s
    → Healthy host r
    → Healthy host (record r { begun = heard r.begun a s })
unfolding Healthy
heard-Healthy host r a s now h = (h.0, All-append _ r.begun.inputs _ h.1 ((λ old k. now), tt), h.2)

Healthy-Sound :
    (host : Host) (r : Running) → Healthy host r → Sound (Fits host (floor_of r.task)) r.begun
unfolding Healthy
Healthy-Sound host r h = (h.0, h.1, rw h.2 tt)

module _ {S : Type 0} (host : Host) (noise : Noise S)
    (iter : HashMap String CircuitConn → List (String × CircuitConn)) where
  abbrev Sane : System → Type 0
  Sane m = Fits host 0 m.shared × All (Healthy host) m.running

  Step-Sane : {m n : System} → Step host noise iter m n → Sane m → Sane n
  unfolding Healthy
  Step-Sane {m} (starts t w same fresh unseen made e) h = rw e (
      let now : Fits host (floor_of t) w.shared = rw same (raise made h.0) in
      (
        lower (program-Fits host noise iter t w (now, rw fresh tt, rw unseen tt)),
        ((now, rw fresh tt, unseen), h.1),
      ))
  Step-Sane {m} (resumes before after r a e takes made e') h = rw e' (
      let there : All (Healthy host) (before ++ r ∷ after) = rw (← e) h.1 in
      let well =
        heard-Healthy host r a m.shared (raise made h.0) (All-here _ before after r there) in
      (
        lower (
            program-Fits host noise iter r.task (heard r.begun a m.shared)
              (Healthy-Sound host (record r { begun = heard r.begun a m.shared }) well)),
        All-replace _ before after r _ there well,
      ))
  Step-Sane (relay_event ev e) h = rw e (inject_relay_event-Fits ev _ h.0, h.1)
  Step-Sane (ack_event alive ev e) h = rw e (inject_ack_event-Fits alive ev _ h.0, h.1)

  Reach-Sane : {m : System} → Reach host noise iter m → Sane m
  Reach-Sane begins = (new_shared-Fits host, tt)
  Reach-Sane (next r step) = Step-Sane step (Reach-Sane r)

  -- Whatever tasks a node runs, however many of each kind, in whatever order their stretches and the events of
  -- the swarm come, and whatever answers their waits get: a node that has just started only reaches shared
  -- maps that fit.
  pub reached_maps_fit : {m : System} → Reach host noise iter m → Fits host 0 m.shared
  reached_maps_fit r = (Reach-Sane r).0
