-- ===== src/Utils/Forward.antt =====
-- network/utils.rs: passing a message on to the other stream of a session, and sending to both.
use white_noise_rs.Prelude.{String, Option, none, some, ◌==◌, string_eq, if◌then◌else◌}
use white_noise_rs.Proto.{Relay}
use white_noise_rs.Host.{Host}
use white_noise_rs.State.{WrappedStream, Session}
use white_noise_rs.Task.{Task, spawn_write_relay, pure, unwrap, emit, ◌>>=◌, ◌>>◌}
use white_noise_rs.Utils.Write.{write_relay_arc}

module _ (host : Host) where
  unfoldable pub forward_relay : Session → String → Relay → Task (Unit {0})
  forward_relay session cur_stream_id relay = do
    early ← unwrap session.early_stream
    if early.stream_id == cur_stream_id
        then (do later ← unwrap session.later_stream; write_relay_arc host later relay; pure tt)
        else (do
          later ← unwrap session.later_stream
          if later.stream_id == cur_stream_id
              then (do write_relay_arc host early relay; pure tt)
              else pure tt)

abbrev pub spawn_write : Option WrappedStream → Relay → Task (Unit {0})
spawn_write none relay = pure tt
spawn_write (some stream) relay = emit (spawn_write_relay stream relay)

-- Each write is a task of its own.
unfoldable pub send_relay_twoway : Session → Relay → Task (Unit {0})
send_relay_twoway session relay = do
  spawn_write session.early_stream relay
  spawn_write session.later_stream relay
