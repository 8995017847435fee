-- ===== src/RelayEvents/Roles.antt =====
-- network/relay_event_handler.rs: what handle_set_session makes of a session.
use white_noise_rs.Prelude.{
  String, ◌≡◌, refl, ap, true, false, Option, none, some, List, ◌∷◌, [], ◌==◌, string_eq, ==_refl,
  if◌then◌else◌, ◌∙◌,
}
use white_noise_rs.HashMap.{get, insert, get-insert, get-remove}
use white_noise_rs.Proto.{SetSessionIdMsg}
use white_noise_rs.Host.{Host}
use white_noise_rs.State.{WrappedStream, Session, ack_request, ready}
use white_noise_rs.Task.{Effect, Input, World, done, node_request, stream_close, elapsed, ◌>>=◌}
use white_noise_rs.Utils.Sending.{sent, farewell, write_disconnect_arc-done}
use white_noise_rs.Node.Sessions.{joined, join_session}
use white_noise_rs.Node.Closing.{close_effects, handle_close_session-done}
use white_noise_rs.Node.Requests.{send_ack}
use white_noise_rs.RelayEvents.Joining.{
  ack_stream, is_entry_and_relay, replace_later, handle_set_session,
}

-- The positive ack that answers a SetSessionId message.
abbrev pub set_session_ack : WrappedStream → String → Effect
set_session_ack stream relay_id = node_request (
    ack_request (record {
      remote_peer_id = stream.remote_peer_id;
      ack_request = some (record { command_id = relay_id; result = true; payload = [] });
    }))

-- The world in which the stream has the later place of the session.
abbrev pub replaced : Session → SetSessionIdMsg → WrappedStream → World → World
replaced session msg stream w = record w {
  shared = record w.shared {
    session_map =
        insert w.shared.session_map msg.session_id
          (joined (some session) msg.session_id session.session_role stream);
  };
}

module _ (host : Host) (msg : SetSessionIdMsg) (stream : WrappedStream) (id : String)
    (w : World) where
  pub set_session_joins :
      (o : Option Session) (k : String)
      → get w.shared.session_map msg.session_id ≡ o
      → is_entry_and_relay o msg ≡ false
      → let r = handle_set_session host msg stream id w in
        (r.0 ≡ done tt)
        × (get r.1.shared.session_map k ≡ (
            if msg.session_id == k
            then some (joined o msg.session_id msg.role stream)
            else get w.shared.session_map k))
        × (r.1.out ≡ set_session_ack stream id ∷ w.out)
        × (r.1.inputs ≡ w.inputs)
  unfolding handle_set_session ack_stream send_ack join_session ◌>>=◌
  set_session_joins o k e other =
      rw e (rw other (rw e (refl, get-insert w.shared.session_map msg.session_id k _, refl, refl)))

  -- An entry node that is named the relay as well, and has no sink stream yet, drops the whole session and sends
  -- no ack.
  pub set_session_drops :
      (session : Session)
      → get w.shared.session_map msg.session_id ≡ some session
      → is_entry_and_relay (some session) msg ≡ true
      → ready session ≡ false
      → let r = handle_set_session host msg stream id w in
        (r.0 ≡ done tt)
        × (r.1.out ≡ close_effects (some session) w.out)
        × (get r.1.shared.session_map msg.session_id ≡ none)
  unfolding handle_set_session ◌>>=◌
  set_session_drops session e both unready = rw e (
      rw both (
        rw unready (
          rw (handle_close_session-done msg.session_id w) (
            refl,
            ap (λ (o : Option Session). close_effects o w.out) e,
            get-remove w.shared.session_map msg.session_id msg.session_id
                ∙ rw (==_refl msg.session_id),
          ))))

  -- An entry node that is named the relay as well, and has its sink stream, puts the new stream in the place of
  -- that one; then the old stream is told to disconnect and is closed, and then the ack goes out.
  pub set_session_replaces :
      (session : Session) (old : WrappedStream) (tick : Input) (rest : List Input)
      → get w.shared.session_map msg.session_id ≡ some session
      → is_entry_and_relay (some session) msg ≡ true
      → ready session ≡ true
      → session.later_stream ≡ some old
      → w.inputs ≡ tick ∷ rest
      → tick.answer ≡ elapsed
      → let v =
          sent host old (farewell host msg.session_id) tick rest (replaced session msg stream w) in
        handle_set_session host msg stream id w
        ≡ (done tt, record v { out = set_session_ack stream id ∷ stream_close old ∷ v.out })
  unfolding handle_set_session replace_later ack_stream send_ack ◌>>=◌
  set_session_replaces session old tick rest e both full later next ticks = rw e (
      rw both (
        rw full (
          rw later (
            rw
              (
                write_disconnect_arc-done host old msg.session_id tick rest
                    (replaced session msg stream w) next ticks,
                ◌>>=◌,
              )
              refl))))
