-- ===== src/Invariant/Sessions.antt =====
-- network/node.rs: waiting for streams, opening and closing sessions, and waiting for an ack keep the
-- invariant.
use white_noise_rs.Prelude.{ℕ, zero, suc, ◌+◌, String, Option, none, some, leb}
use white_noise_rs.Host.{Host, PeerId}
use white_noise_rs.State.{WrappedStream, Session, NodeRequest}
use white_noise_rs.Task.{World, modify, Task, new_channel, pure}
use white_noise_rs.Task.Consumes.{Consumes-new_channel}
use white_noise_rs.Node.Waiting.{wait-Consumes}
use white_noise_rs.Task.Keeps.{
  Preserves, Preserves-Keeps, Preserves-bind, Preserves-if, Preserves-out_of_fuel, Sound, Keeps,
  keeps_rules, Keeps-modify, Keeps-modifies, Keeps-bind, Keeps-pure, Keeps-unwrap, Keeps-emit,
  Keeps-wait_for,
}
use white_noise_rs.Utils.Keeping.{keeping}
use white_noise_rs.Node.Streams.{
  wait_rounds, scan_out, wait_out, wait_for_out_peer_relay_stream, new_relay_stream,
}
use white_noise_rs.Node.Sessions.{
  close_stream, close_streams, take_session, handle_close_session, join_session, open_session,
  new_session_to_peer,
}
use white_noise_rs.Node.Requests.{send_ack, external_send_node_request_and_wait}
use white_noise_rs.Invariant.Updates.{
  Fits, join_session-Fits, take_session-Fits, remove_circuit-Fits, remove_probe-Fits,
  next_channel-Fits, event_bus-Fits, out_streams-Fits,
}

module _ (host : Host) {floor : ℕ} where
  pub new_channel-Keeps : Keeps (Fits host floor) new_channel
  unfolding new_channel
  new_channel-Keeps = record {
    at = λ w h. (next_channel-Fits h.0, h.1, h.2);
    consumes = Consumes-new_channel;
  }

  found_or_again :
      (o : Option WrappedStream) (again : Task (Option WrappedStream))
      → Preserves (Fits host floor) again
      → Preserves (Fits host floor) (elim o [ some stream ↦ pure (some stream) | none ↦ again ])
  found_or_again none again k = k
  found_or_again (some stream) again k = Preserves-Keeps (Keeps-pure _)

  wait_out-Preserves :
      (fuel wait_time : ℕ) (peer_id : PeerId)
      → Preserves (Fits host floor) (wait_out fuel wait_time peer_id)
  unfolding wait_out scan_out
  wait_out-Preserves zero t peer_id = Preserves-out_of_fuel
  wait_out-Preserves (suc fuel) t peer_id =
      Preserves-if (leb 5000 t) _ _ (Preserves-Keeps (Keeps-pure none)) (
        Preserves-bind _ _
          (Preserves-Keeps (Keeps-modifies (scan_out peer_id) (λ s h. out_streams-Fits h _)))
          (λ o. found_or_again o _ (
            Preserves-bind _ _ (Preserves-Keeps (Keeps-wait_for _))
              (λ _. wait_out-Preserves fuel (t + 50) peer_id))))

  wait_for_out-at :
      (peer_id : PeerId) (w : World)
      → Sound (Fits host floor) w
      → Sound (Fits host floor) (wait_for_out_peer_relay_stream peer_id w).1
  unfolding wait_for_out_peer_relay_stream
  wait_for_out-at peer_id = (wait_out-Preserves wait_rounds 0 peer_id).at

  wait-Keeps : (peer_id : PeerId) → Keeps (Fits host floor) (wait_for_out_peer_relay_stream peer_id)
  wait-Keeps peer_id = record { at = wait_for_out-at peer_id; consumes = wait-Consumes peer_id }

  pub new_relay_stream-Keeps :
      (peer_id : PeerId) → Keeps (Fits host floor) (new_relay_stream peer_id)
  unfolding new_relay_stream
  new_relay_stream-Keeps peer_id = search (keeps_rules, wait-Keeps)

  close_stream-Keeps : (o : Option WrappedStream) → Keeps (Fits host floor) (close_stream o)
  close_stream-Keeps none = search keeps_rules
  close_stream-Keeps (some stream) = search keeps_rules

  close_streams-Keeps : (o : Option Session) → Keeps (Fits host floor) (close_streams o)
  close_streams-Keeps none = search keeps_rules
  close_streams-Keeps (some session) = search (keeps_rules, close_stream-Keeps)

  pub handle_close_session-Keeps : (id : String) → Keeps (Fits host floor) (handle_close_session id)
  unfolding handle_close_session
  handle_close_session-Keeps id =
      Keeps-bind _ _ (Keeps-modifies (take_session id) (λ s h. take_session-Fits h id)) (λ o.
        Keeps-bind _ _ (close_streams-Keeps o) (λ _.
          Keeps-bind _ _ (Keeps-modify _ (λ s h. remove_circuit-Fits h id))
            (λ _. Keeps-modify _ (λ s h. remove_probe-Fits h id))))

  pub join_session-Keeps :
      (id : String) (role : ℕ) (stream : WrappedStream)
      → Keeps (Fits host floor) (modify (join_session id role stream))
  join_session-Keeps id role stream =
      Keeps-modify (join_session id role stream) (λ s h. join_session-Fits h id role stream)

  open_session-Keeps :
      (stream : WrappedStream) (id : String) (mine other : ℕ)
      → Keeps (Fits host floor) (open_session host stream id mine other)
  open_session-Keeps stream id mine other = Keeps-bind _ _ (search keeping) (λ _.
      Keeps-bind _ _ (search keeping) (λ key. Keeps-bind _ _ new_channel-Keeps (λ r.
        Keeps-bind _ _ (Keeps-modify _ (λ s h. event_bus-Fits h _)) (λ _.
          Keeps-bind _ _ (Keeps-wait_for _) (λ ack. Keeps-bind _ _ (Keeps-unwrap ack) (λ _.
            Keeps-bind _ _ (Keeps-emit _)
              (λ _. Keeps-bind _ _ (join_session-Keeps id mine stream) (λ _. Keeps-pure _))))))))

  session_or_none :
      (o : Option WrappedStream) (id : String) (mine other : ℕ)
      → Keeps {A = Option WrappedStream}
          (Fits host floor)
          (elim o [ none ↦ pure none | some stream ↦ open_session host stream id mine other ])
  session_or_none none id mine other = Keeps-pure none
  session_or_none (some stream) id mine other = open_session-Keeps stream id mine other

  pub new_session_to_peer-Keeps :
      (peer_id : PeerId) (id : String) (mine other : ℕ)
      → Keeps (Fits host floor) (new_session_to_peer host peer_id id mine other)
  unfolding new_session_to_peer
  new_session_to_peer-Keeps peer_id id mine other =
      Keeps-bind _ _ (new_relay_stream-Keeps peer_id) (λ o. session_or_none o id mine other)

  pub send_ack-Keeps : (request : NodeRequest) → Keeps (Fits host floor) (send_ack request)
  unfolding send_ack
  send_ack-Keeps request = search keeps_rules

  pub send_and_wait-Keeps :
      (key : String) (request : NodeRequest)
      → Keeps (Fits host floor) (external_send_node_request_and_wait key request)
  unfolding external_send_node_request_and_wait
  send_and_wait-Keeps key request =
      Keeps-bind _ _ new_channel-Keeps
        (λ r. Keeps-bind _ _ (Keeps-modify _ (λ s h. event_bus-Fits h _)) (λ _. search keeping))

pub ruleset session_rules = (
  keeping, new_channel-Keeps, new_relay_stream-Keeps, handle_close_session-Keeps,
  join_session-Keeps, new_session_to_peer-Keeps, send_ack-Keeps, send_and_wait-Keeps,
)
