-- ===== src/Node/Opening.antt =====
-- network/node.rs: what new_session_to_peer does when the peer has a stream and answers.
use white_noise_rs.Prelude.{suc, ℕ, String, ◌≡◌, refl, some, List, [], ◌∷◌, ==_refl, string_eq, ◌∙◌}
use white_noise_rs.HashMap.{get, get-insert}
use white_noise_rs.Proto.{Ack, Relay, relaytype_i32, wake, set_session_id}
use white_noise_rs.Host.{Host, PeerId, peer_eq}
use white_noise_rs.State.{WrappedStream, new_stream_request}
use white_noise_rs.Task.{
  Input, World, done, elapsed, resolved, spawn_node_request, spawn_relay_handler, wait_for, expect,
  ◌>>=◌,
}
use white_noise_rs.Utils.Write.{
  new_relay, with_id, write_relay_wake_arc, write_set_session_with_role_arc,
}
use white_noise_rs.Utils.Sending.{sent, padded, write_relay_arc-done}
use white_noise_rs.Node.Streams.{
  scan, scan_out, wait_out, wait_for_out_peer_relay_stream, new_relay_stream,
}
use white_noise_rs.Node.Sessions.{joined, join_session, new_session_to_peer}
use white_noise_rs.Node.Waiters.{awaiting}

abbrev pub wake_message : Relay
wake_message = new_relay (relaytype_i32 wake) []

abbrev pub set_session_message : Host → String → ℕ → Relay
set_session_message host id role =
    new_relay (relaytype_i32 set_session_id)
      (host.set_session_id_msg.encode (record { session_id = id; role = role }))

-- The world after the stream has been taken from the queue.
abbrev pub stream_taken : PeerId → List WrappedStream → World → World
stream_taken peer queue w = record w {
  shared = record w.shared { relay_out_streams = queue };
  out = spawn_node_request (new_stream_request (record { peer_id = peer })) ∷ w.out;
}

wait_out_hit :
    (fuel : ℕ) (stream : WrappedStream) (queue : List WrappedStream) (w : World)
    → w.shared.relay_out_streams ≡ stream ∷ queue
    → wait_out (suc fuel) 0 stream.remote_peer_id w
      ≡ (done (some stream), record w { shared = record w.shared { relay_out_streams = queue } })
unfolding wait_out scan_out scan ◌>>=◌
wait_out_hit fuel stream queue w queued = rw queued (rw (==_refl stream.remote_peer_id) refl)

module _ (host : Host) (stream : WrappedStream) (queue : List WrappedStream) (id : String)
    (mine other : ℕ) (w : World) (t1 t2 i : Input) (rest : List Input) (ack : Ack)
    (queued : w.shared.relay_out_streams ≡ stream ∷ queue) (next : w.inputs ≡ t1 ∷ t2 ∷ i ∷ rest)
    (ticks1 : t1.answer ≡ elapsed) (ticks2 : t2.answer ≡ elapsed)
    (answers : i.answer ≡ resolved ack) where
  stream_found :
      new_relay_stream stream.remote_peer_id w
      ≡ (done (some stream), stream_taken stream.remote_peer_id queue w)
  unfolding new_relay_stream wait_for_out_peer_relay_stream ◌>>=◌
  stream_found =
      wait_out_hit 100 stream queue
        (record w {
          out =
              spawn_node_request (new_stream_request (record { peer_id = stream.remote_peer_id }))
              ∷ w.out;
        })
        queued

  -- Where the first stream in the queue is the peer's and an ack comes, whatever it says: the node wakes the
  -- stream and names the session and the peer's role on it; it waits for the ack under the id of that
  -- message, which is in the event bus only once the message is out; then it starts to read the stream,
  -- and the stream joins the session of that id as it is by then, or begins it.
  pub new_session_opens :
      let w1 =
        sent host stream wake_message t1
          (t2 ∷ i ∷ rest)
          (stream_taken stream.remote_peer_id queue w) in
      let named = set_session_message host id other in
      let w2 = sent host stream named t2 (i ∷ rest) w1 in
      let key = (with_id host (padded w1 named)).id in
      let at_wait = awaiting key w2.shared in
      let r = new_session_to_peer host stream.remote_peer_id id mine other w in
      (r.0 ≡ done (some stream))
      × (r.1.out ≡ spawn_relay_handler stream (some id) ∷ w2.out)
      × (r.1.seen ≡ at_wait ∷ w2.seen)
      × (get at_wait.event_bus key ≡ some w2.shared.next_channel)
      × (get r.1.shared.session_map id
          ≡ some (joined (get (i.others at_wait).session_map id) id mine stream))
      × (r.1.inputs ≡ rest)
  unfolding new_session_to_peer write_relay_wake_arc write_set_session_with_role_arc join_session
      wait_for expect ◌>>=◌
  new_session_opens =
      let w0 = stream_taken stream.remote_peer_id queue w in
      let w1 = sent host stream wake_message t1 (t2 ∷ i ∷ rest) w0 in
      let named = set_session_message host id other in
      let w2 = sent host stream named t2 (i ∷ rest) w1 in
      let key = (with_id host (padded w1 named)).id in
      let at_end = i.others (awaiting key w2.shared) in
      rw (stream_found, ◌>>=◌)
        (rw (write_relay_arc-done host stream wake_message t1 (t2 ∷ i ∷ rest) w0 next ticks1, ◌>>=◌)
          (rw (write_relay_arc-done host stream named t2 (i ∷ rest) w1 refl ticks2, ◌>>=◌)
            (rw answers (
              refl,
              refl,
              refl,
              get-insert w2.shared.event_bus key key w2.shared.next_channel ∙ rw (==_refl key) refl,
              get-insert at_end.session_map id id
                    (joined (get at_end.session_map id) id mine stream)
                  ∙ rw (==_refl id) refl,
              refl,
            ))))
