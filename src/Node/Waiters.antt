-- ===== src/Node/Waiters.antt =====
-- network/node.rs: a request that waits for its ack.
use white_noise_rs.Prelude.{String, ◌≡◌, refl, ◌∷◌, List, some, string_eq, ==_refl, ◌∙◌, suc}
use white_noise_rs.HashMap.{get, insert, get-insert}
use white_noise_rs.Proto.{Ack}
use white_noise_rs.State.{NodeRequest, Shared}
use white_noise_rs.Task.{Input, World, done, node_request, resolved, wait_for, expect, ◌>>=◌}
use white_noise_rs.Node.Requests.{external_send_node_request_and_wait}

-- The shared maps while the task waits: a new sender stands in the event bus under the key.
abbrev pub awaiting : String → Shared → Shared
awaiting key s = record s {
  event_bus = insert s.event_bus key s.next_channel;
  next_channel = suc s.next_channel;
}

module _ (key : String) (request : NodeRequest) (w : World) (i : Input) (rest : List Input)
    (ack : Ack) (next : w.inputs ≡ i ∷ rest) (answers : i.answer ≡ resolved ack) where
  -- At its only suspension point a request that waits shows the others its sender in the event bus under the
  -- key, and the request is out by then. The ack is the result.
  pub request_waits_registered :
      let r = external_send_node_request_and_wait key request w in
      let at_wait = awaiting key w.shared in
      (r ≡ (
        done ack,
        record w {
          shared = i.others at_wait;
          out = node_request request ∷ w.out;
          inputs = rest;
          seen = at_wait ∷ w.seen;
        },
      ))
      × (get at_wait.event_bus key ≡ some w.shared.next_channel)
  unfolding external_send_node_request_and_wait wait_for expect ◌>>=◌
  request_waits_registered = (
    rw next (rw answers refl),
    get-insert w.shared.event_bus key key w.shared.next_channel ∙ rw (==_refl key) refl,
  )
