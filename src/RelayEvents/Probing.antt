-- ===== src/RelayEvents/Probing.antt =====
-- network/relay_event_handler.rs: handle_relay_probe. The sink node compares the two probes that come
-- from both ends of the circuit; every other node passes them on.
use white_noise_rs.Prelude.{
  String, Option, none, some, ◌==◌, ℕ_eq, bytes_eq, string_eq, if◌then◌else◌,
}
use white_noise_rs.HashMap.{get, insert}
use white_noise_rs.Proto.{Relay, ProbeSignal}
use white_noise_rs.Host.{Host}
use white_noise_rs.State.{WrappedStream, Session, Probe, role_i32, sink_role, ready}
use white_noise_rs.Task.{Task, pure, unwrap, reads, modify, when, ◌>>=◌}
use white_noise_rs.Utils.Write.{new_relay_circuit_success}
use white_noise_rs.Utils.Forward.{forward_relay, send_relay_twoway}
use white_noise_rs.Node.Sessions.{handle_close_session}

module _ (host : Host) where
  -- The probe that the node already has decides.
  abbrev pub compare_probe : Session → String → ProbeSignal → Option Probe → Task (Unit {0})
  compare_probe session session_id signal none = modify (λ s. record s {
    probe_map =
        insert s.probe_map session_id (record { session_id = session_id; rand = signal.payload });
  })
  compare_probe session session_id signal (some exist_probe) =
      if exist_probe.rand == signal.payload
      then send_relay_twoway session (new_relay_circuit_success host session_id)
      else handle_close_session session_id

  abbrev pub probe_session :
      Option Session → String → ProbeSignal → WrappedStream → Relay → Task (Unit {0})
  probe_session none session_id signal stream relay = pure tt
  probe_session (some session) session_id signal stream relay =
      if session.session_role == role_i32 sink_role
      then (do
        exist_probe ← reads (λ s. get s.probe_map session_id)
        compare_probe session session_id signal exist_probe)
      else when (ready session) (forward_relay host session stream.stream_id relay)

  unfoldable pub handle_relay_probe : String → WrappedStream → Relay → Task (Unit {0})
  handle_relay_probe session_id stream relay = do
    signal ← unwrap (host.probe_signal.decode relay.payload)
    session ← reads (λ s. get s.session_map session_id)
    probe_session session session_id signal stream relay
