-- ===== src/Node/Sessions.antt =====
-- network/node.rs: handle_close_session and new_session_to_peer.
use white_noise_rs.Prelude.{ℕ, String, Option, none, some, string_eq}
use white_noise_rs.HashMap.{get, insert, remove}
use white_noise_rs.Host.{Host, PeerId}
use white_noise_rs.State.{WrappedStream, Session, Shared}
use white_noise_rs.Task.{
  Task, stream_close, spawn_relay_handler, pure, unwrap, modify, modifies, emit, new_channel,
  await_ack, ◌>>=◌, ◌>>◌,
}
use white_noise_rs.Utils.Write.{write_relay_wake_arc, write_set_session_with_role_arc}
use white_noise_rs.Node.Streams.{new_relay_stream}

abbrev pub close_stream : Option WrappedStream → Task (Unit {0})
close_stream none = pure tt
close_stream (some stream) = emit (stream_close stream)

abbrev pub close_streams : Option Session → Task (Unit {0})
close_streams none = pure tt
close_streams (some session) = do
  close_stream session.early_stream
  close_stream session.later_stream

abbrev pub take_session : String → Shared → Option Session × Shared
take_session session_id s =
    (get s.session_map session_id, record s { session_map = remove s.session_map session_id })

unfoldable pub handle_close_session : String → Task (Unit {0})
handle_close_session session_id = do
  session_opt ← modifies (take_session session_id)
  close_streams session_opt
  modify (λ s. record s { circuit_map = remove s.circuit_map session_id })
  modify (λ s. record s { probe_map = remove s.probe_map session_id })

-- A new session, or the session with its later stream replaced.
abbrev pub joined : Option Session → String → ℕ → WrappedStream → Session
joined none session_id role stream = record {
  id = session_id;
  pair_stream = record { early_stream = some stream; later_stream = none };
  session_role = role;
}
joined (some session) session_id role stream = record session {
  pair_stream = record session.pair_stream { later_stream = some stream };
}

unfoldable pub join_session : String → ℕ → WrappedStream → Shared → Shared
join_session session_id role stream s = record s {
  session_map =
      insert s.session_map session_id
        (joined (get s.session_map session_id) session_id role stream);
}

module _ (host : Host) where
  abbrev pub open_session : WrappedStream → String → ℕ → ℕ → Task (Option WrappedStream)
  open_session wraped_stream session_id my_role other_role = do
    write_relay_wake_arc host wraped_stream
    key ← write_set_session_with_role_arc host wraped_stream session_id other_role
    r ← new_channel
    modify (λ s. record s { event_bus = insert s.event_bus key r })
    ack_opt ← await_ack
    ack ← unwrap ack_opt
    emit (spawn_relay_handler wraped_stream (some session_id))
    modify (join_session session_id my_role wraped_stream)
    pure (some wraped_stream)

  unfoldable pub new_session_to_peer : PeerId → String → ℕ → ℕ → Task (Option WrappedStream)
  new_session_to_peer peer_id session_id my_role other_role = do
    found ← new_relay_stream peer_id
    elim found [
      | none ↦ pure none
      | some wraped_stream ↦ open_session wraped_stream session_id my_role other_role
    ]
