-- ===== src/RelayEvents/Joining.antt =====
-- network/relay_event_handler.rs: handle_set_session.
use white_noise_rs.Prelude.{
  String, Bool, Option, none, some, true, [], ◌&&◌, ◌==◌, ℕ_eq, string_eq, if◌then◌else◌, false,
}
use white_noise_rs.HashMap.{get, insert}
use white_noise_rs.Proto.{SetSessionIdMsg}
use white_noise_rs.Host.{Host}
use white_noise_rs.State.{
  WrappedStream, Session, ack_request, role_i32, entry_role, relay_role, ready,
}
use white_noise_rs.Task.{Task, stream_close, pure, unwrap, reads, modify, emit, ◌>>=◌, ◌>>◌}
use white_noise_rs.Utils.Write.{write_disconnect_arc}
use white_noise_rs.Node.Sessions.{handle_close_session, joined, join_session}
use white_noise_rs.Node.Requests.{send_ack}

-- The ack that answers the message on its stream.
unfoldable pub ack_stream : WrappedStream → String → Task (Unit {0})
ack_stream stream relay_id = send_ack (
    ack_request (record {
      remote_peer_id = stream.remote_peer_id;
      ack_request = some (record { command_id = relay_id; result = true; payload = [] });
    }))

-- The node is entry and relay of the session at once: the stream to the sink gives way.
abbrev pub is_entry_and_relay : Option Session → SetSessionIdMsg → Bool
is_entry_and_relay none msg = false
is_entry_and_relay (some session) msg =
    session.session_role == role_i32 entry_role && msg.role == role_i32 relay_role

module _ (host : Host) where
  unfoldable pub replace_later :
      Session → SetSessionIdMsg → WrappedStream → String → Task (Unit {0})
  replace_later session msg stream relay_id = do
    modify (λ s. record s {
      session_map =
          insert s.session_map msg.session_id
            (joined (some session) msg.session_id session.session_role stream);
    })
    to_close_stream ← unwrap session.later_stream
    write_disconnect_arc host to_close_stream msg.session_id
    emit (stream_close to_close_stream)
    ack_stream stream relay_id

  abbrev pub set_entry_session :
      Option Session → SetSessionIdMsg → WrappedStream → String → Task (Unit {0})
  set_entry_session none msg stream relay_id = pure tt
  set_entry_session (some session) msg stream relay_id =
      if ready session
      then replace_later session msg stream relay_id
      else handle_close_session msg.session_id

  unfoldable pub handle_set_session : SetSessionIdMsg → WrappedStream → String → Task (Unit {0})
  handle_set_session msg stream relay_id = do
    session ← reads (λ s. get s.session_map msg.session_id)
    if is_entry_and_relay session msg
        then set_entry_session session msg stream relay_id
        else (do modify (join_session msg.session_id msg.role stream); ack_stream stream relay_id)
