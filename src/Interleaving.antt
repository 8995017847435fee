-- ===== src/Interleaving.antt =====
-- The tasks of a node together: what sdk/host.rs, sdk/client.rs and the handlers spawn, and the events of
-- the swarm, in any order and any number, each task running alone from one wait to the next.
pub mod Invariance
use white_noise_rs.Prelude.{ℕ, suc, String, Bool, ◌≡◌, ◌≤◌, Option, List, [], ◌∷◌, ◌++◌}
use white_noise_rs.HashMap.{HashMap}
use white_noise_rs.Proto.{Ack}
use white_noise_rs.Host.{Host, PeerId}
use white_noise_rs.State.{WrappedStream, CircuitConn, Shared, new_shared}
use white_noise_rs.Task.{Answer, Input, World, Task, pure, ◌>>=◌, ◌>>◌}
use white_noise_rs.Node.Sessions.{handle_close_session}
use white_noise_rs.RelayEvents.{relay_event_handler}
use white_noise_rs.Proxy.{process_proxy_request}
use white_noise_rs.Cmd.{process_cmd_request}
use white_noise_rs.Publish.{process_publish_request}
use white_noise_rs.Client.{dial, register_proxy, get_main_nets}
use white_noise_rs.Handshake.{Noise, process_handshake}
use white_noise_rs.Sdk.{process_new_stream, process_new_session}
use white_noise_rs.Swarm.{RelayEvent, inject_relay_event, RequestResponseEvent, inject_ack_event}

-- What runs in a task, or in the thread of a client that calls the node.
pub data NodeTask : Type 0 where
  relay_events : WrappedStream → Option String → NodeTask
  proxy_requests cmd_requests publish_requests new_sessions : NodeTask
  new_streams : ℕ → NodeTask
  handshake : CircuitConn → Bool → NodeTask
  dials : String → NodeTask
  registers : PeerId → NodeTask
  lists_nets : ℕ → PeerId → String → NodeTask
  closes : String → NodeTask

-- A task, and the world in which it was started with the inputs that it has taken since.
pub record Running : Type 0 where
  pub task : NodeTask
  pub begun : World

pub record System : Type 0 where
  pub shared : Shared
  pub running : List Running

abbrev pub new_system : System
new_system = record { shared = new_shared; running = [] }

-- A handshake has the channel of its circuit: the channels up to this one have been made.
abbrev pub floor_of : NodeTask → ℕ
floor_of (handshake c initiate) = suc c.channel
floor_of _ = 0

-- The task has waited, and goes on with this answer and with the maps as they are now.
abbrev pub heard : World → Answer → Shared → World
heard w a s = record w { inputs = w.inputs ++ (record { answer = a; others = λ old. s }) ∷ [] }

module _ {S : Type 0} (host : Host) (noise : Noise S)
    (iter : HashMap String CircuitConn → List (String × CircuitConn)) where
  unfoldable pub program : NodeTask → Task (Unit {0})
  program (relay_events stream session_id) = relay_event_handler host stream session_id
  program proxy_requests = process_proxy_request host
  program cmd_requests = process_cmd_request host
  program publish_requests = process_publish_request host
  program new_sessions = process_new_session iter
  program (new_streams fuel) = process_new_stream fuel
  program (handshake c initiate) = process_handshake host noise c initiate c.id
  program (dials remote_id) = do dial host remote_id; pure tt
  program (registers peer_id) = do register_proxy host peer_id; pure tt
  program (lists_nets cnt peer_id addr) = do get_main_nets host cnt peer_id addr; pure tt
  program (closes session_id) = handle_close_session session_id

  -- One stretch of one task, or one event of the swarm. A task goes on only if it takes the answer, which
  -- is its last input then. No channel that a task has is taken back.
  pub data Step (m n : System) : Type 0 where
    starts :
        (t : NodeTask) (w : World)
        → w.shared ≡ m.shared
        → w.inputs ≡ []
        → w.seen ≡ []
        → floor_of t ≤ m.shared.next_channel
        → n ≡ (record {
          shared = (program t w).1.shared;
          running = (record { task = t; begun = w }) ∷ m.running;
        })
        → Step m n
    resumes :
        (before after : List Running) (r : Running) (a : Answer)
        → m.running ≡ before ++ r ∷ after
        → (program r.task (heard r.begun a m.shared)).1.inputs ≡ []
        → floor_of r.task ≤ m.shared.next_channel
        → n ≡ (record {
          shared = (program r.task (heard r.begun a m.shared)).1.shared;
          running = before ++ (record r { begun = heard r.begun a m.shared }) ∷ after;
        })
        → Step m n
    relay_event :
        (e : RelayEvent) → n ≡ record m { shared = (inject_relay_event e m.shared).0 } → Step m n
    ack_event :
        (alive : ℕ → Bool) (e : RequestResponseEvent Ack)
        → n ≡ record m { shared = (inject_ack_event alive e m.shared).1 }
        → Step m n

  pub data Reach : System → Type 0 where
    begins : Reach new_system
    next : {m n : System} → Reach m → Step m n → Reach n
