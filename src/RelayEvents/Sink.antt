-- ===== src/RelayEvents/Sink.antt =====
-- network/relay_event_handler.rs: the sink node, at which the two halves of a circuit meet.
use white_noise_rs.Prelude.{
  ◌∙◌, Bool-cases, inl, inr, ap, String, ◌≡◌, refl, Option, none, some, List, ◌∷◌, ◌==◌, string_eq,
  bytes_eq, ℕ_eq, ==_refl, if◌then◌else◌,
}
use white_noise_rs.HashMap.{get, insert, get-insert, get-remove}
use white_noise_rs.Proto.{Relay, ProbeSignal}
use white_noise_rs.Host.{Host}
use white_noise_rs.State.{WrappedStream, Session, Probe, role_i32, sink_role}
use white_noise_rs.Task.{modify, Effect, World, done, spawn_write_relay, pure, ◌>>=◌}
use white_noise_rs.Utils.Write.{new_relay_circuit_success}
use white_noise_rs.Utils.Forward.{spawn_write, send_relay_twoway}
use white_noise_rs.Node.Closing.{close_effects, handle_close_session-done}
use white_noise_rs.RelayEvents.Probing.{compare_probe, handle_relay_probe}

abbrev pub spawn_effect : Option WrappedStream → Relay → List Effect → List Effect
spawn_effect none relay out = out
spawn_effect (some stream) relay out = spawn_write_relay stream relay ∷ out

-- A write to each stream that the session has, the early stream's first.
abbrev pub twoway_effects : Session → Relay → List Effect → List Effect
twoway_effects session relay out =
    spawn_effect session.later_stream relay (spawn_effect session.early_stream relay out)

spawn_write-done :
    (o : Option WrappedStream) (relay : Relay) (w : World)
    → spawn_write o relay w ≡ (done tt, record w { out = spawn_effect o relay w.out })
unfolding pure ◌>>=◌
spawn_write-done none relay w = refl
spawn_write-done (some stream) relay w = refl

pub send_relay_twoway-done :
    (session : Session) (relay : Relay) (w : World)
    → send_relay_twoway session relay w
      ≡ (done tt, record w { out = twoway_effects session relay w.out })
unfolding send_relay_twoway ◌>>=◌
send_relay_twoway-done session relay w =
    rw (spawn_write-done session.early_stream relay w, ◌>>=◌)
      (spawn_write-done session.later_stream relay
        (record w { out = spawn_effect session.early_stream relay w.out }))

module _ (host : Host) (id : String) (session : Session) (p : ProbeSignal) (old : Probe)
    (w : World) where
  abbrev Compared : Type 0
  Compared =
      let r = compare_probe host session id p (some old) w in
      (r.0 ≡ done tt)
      × (r.1.out ≡ (
          if old.rand == p.payload
          then twoway_effects session (new_relay_circuit_success host id) w.out
          else close_effects (some session) w.out))
      × (get r.1.shared.session_map id ≡ (if old.rand == p.payload then some session else none))

  compare_second : get w.shared.session_map id ≡ some session → Compared
  compare_second e = elim (Bool-cases (old.rand == p.payload)) [
    | inl same ↦
        rw same (
          rw (send_relay_twoway-done session (new_relay_circuit_success host id) w) (refl, refl, e))
    | inr differ ↦ rw differ (
        rw (handle_close_session-done id w) (
          refl,
          ap (λ (o : Option Session). close_effects o w.out) e,
          get-remove w.shared.session_map id id ∙ rw (==_refl id),
        ))
  ]

module _ (host : Host) (id : String) (session : Session) (s : WrappedStream) (relay : Relay)
    (p : ProbeSignal) (decodes : host.probe_signal.decode relay.payload ≡ some p)
    (sink : session.session_role ≡ role_i32 sink_role) where
  abbrev stored : World → World
  stored w = record w {
    shared = record w.shared {
      probe_map = insert w.shared.probe_map id (record { session_id = id; rand = p.payload });
    };
  }

  probe-done :
      (w : World) (o : Option Probe)
      → get w.shared.session_map id ≡ some session
      → get w.shared.probe_map id ≡ o
      → handle_relay_probe host id s relay w ≡ compare_probe host session id p o w
  unfolding handle_relay_probe ◌>>=◌
  probe-done w o e q = rw decodes (rw e (rw sink (rw q refl)))

module _ (host : Host) (id : String) (session : Session) (s1 s2 : WrappedStream) (r1 r2 : Relay)
    (p1 p2 : ProbeSignal) (w : World) (sink : session.session_role ≡ role_i32 sink_role)
    (decodes1 : host.probe_signal.decode r1.payload ≡ some p1)
    (decodes2 : host.probe_signal.decode r2.payload ≡ some p2)
    (open_session : get w.shared.session_map id ≡ some session)
    (no_probe : get w.shared.probe_map id ≡ none) where
  -- The sink keeps the first probe of a session and does nothing else. The second, whichever stream it
  -- comes from, is compared with it: if they are equal both streams are told of the success and the
  -- session stays, and if they differ the session is closed with its streams.
  pub probes_meet :
      let w1 = (handle_relay_probe host id s1 r1 w).1 in
      let r = handle_relay_probe host id s2 r2 w1 in
      (w1.out ≡ w.out)
      × (w1.shared.session_map ≡ w.shared.session_map)
      × (r.0 ≡ done tt)
      × (r.1.out ≡ (
          if p1.payload == p2.payload
          then twoway_effects session (new_relay_circuit_success host id) w.out
          else close_effects (some session) w.out))
      × (get r.1.shared.session_map id ≡ (if p1.payload == p2.payload then some session else none))
  unfolding modify
  probes_meet =
      rw (probe-done host id session s1 r1 p1 decodes1 sink w none open_session no_probe) (
        rw
          (probe-done host id session s2 r2 p2 decodes2 sink w1 (some stored_probe) open_session
            (get-insert w.shared.probe_map id id stored_probe ∙ rw (==_refl id)))
          (refl, refl, compared.0, compared.1, compared.2))
    where
      stored_probe : Probe
      stored_probe = record { session_id = id; rand = p1.payload }

      w1 : World
      w1 = stored host id session s1 r1 p1 decodes1 sink w

      compared : Compared host id session p2 stored_probe w1
      compared = compare_second host id session p2 stored_probe w1 open_session
