-- ===== src/Witnesses/Systems.antt =====
-- The theorems of Interleaving and Utils/ReadBack at concrete runs.
use white_noise_rs.Prelude.{◌≡◌, refl, String, none, List, [], ◌∷◌, arith}
use white_noise_rs.HashMap.{HashMap}
use white_noise_rs.State.{CircuitConn, new_shared}
use white_noise_rs.Task.{wait_for, expect, ◌>>=◌, Input, World, done, elapsed, read_ok, proxied}
use white_noise_rs.Utils.Ids.{from_bytes_get_id}
use white_noise_rs.Utils.Payload.{frame}
use white_noise_rs.Proxy.{proxy_loop, process_proxy_request}
use white_noise_rs.Swarm.{inject_relay_event, relay_inbound}
use white_noise_rs.Utils.Reading.{read_payload_arc}
use white_noise_rs.Utils.Substream.{read_payload}
use white_noise_rs.Utils.Limit.{limited}
use white_noise_rs.Swarm.Polling.{delivered, poll_step}
use white_noise_rs.Utils.ReadBack.{payload_read_back}
use white_noise_rs.Invariant.Updates.{Fits}
use white_noise_rs.Interleaving.{
  heard, NodeTask, System, new_system, program, Step, begins, next, starts, resumes, relay_event,
}
use white_noise_rs.Interleaving.Invariance.{reached_maps_fit}
use white_noise_rs.Witnesses.Setting.{host, stream_a, world, quiet}
use white_noise_rs.Witnesses.Handshakes.{noise}

abbrev unordered : HashMap String CircuitConn → List (String × CircuitConn)
unordered m = []

-- A task for requests starts and waits; a stream comes in; the channel of the requests is closed.
abbrev waiting_system : System
waiting_system = record {
  shared = new_shared;
  running = (record { task = NodeTask.proxy_requests; begun = world new_shared [] }) ∷ [];
}

abbrev visited_system : System
visited_system = record waiting_system {
  shared = record new_shared { relay_in_streams = stream_a ∷ [] };
}

-- The task goes on with the end of its channel, while the stream waits.
abbrev ended_system : System
ended_system = record visited_system {
  running =
      (record {
        task = NodeTask.proxy_requests;
        begun = heard (world new_shared []) (proxied none) visited_system.shared;
      })
      ∷ [];
}

waits : Step host noise unordered new_system waiting_system
unfolding program process_proxy_request proxy_loop wait_for expect ◌>>=◌
waits = starts NodeTask.proxy_requests (world new_shared []) refl refl refl (omega arith) refl

visited : Step host noise unordered waiting_system visited_system
unfolding inject_relay_event new_shared
visited = relay_event (relay_inbound stream_a) refl

ended : Step host noise unordered visited_system ended_system
unfolding program process_proxy_request proxy_loop wait_for expect ◌>>=◌
ended =
    resumes [] [] (record { task = NodeTask.proxy_requests; begun = world new_shared [] })
      (proxied none) refl refl (omega arith) refl

reached_maps_fit_example : Fits host 0 ended_system.shared
reached_maps_fit_example =
    reached_maps_fit host noise unordered (next (next (next begins waits) visited) ended)

abbrev skipped : List Input
skipped = quiet (read_ok (4 ∷ [])) ∷ []

abbrev carried : Input
carried = quiet (read_ok (2 ∷ 0 ∷ 1 ∷ 40 ∷ []))

abbrev sender : World
sender = world new_shared (quiet elapsed ∷ [])

abbrev receiver : World
receiver = world new_shared (quiet (read_ok (4 ∷ [])) ∷ carried ∷ [])

payload_read_back_example :
    ((read_payload_arc host receiver).0 ≡ done (40 ∷ []))
    × ((read_payload host receiver).0 ≡ done (40 ∷ []))
unfolding from_bytes_get_id frame delivered poll_step limited
payload_read_back_example =
    let r =
      payload_read_back host stream_a "s" [] 40 sender (quiet elapsed) [] skipped [] refl refl
        (omega arith) (omega arith, tt) refl refl (omega arith)
        (
          (
            4 ∷ [],
            record { id = ""; type = 4; payload = []; confusion = [] },
            refl,
            omega arith,
            refl,
            refl,
          ),
          tt,
        )
        receiver receiver carried carried refl refl refl refl in
    (r.1, r.2)
