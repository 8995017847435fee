-- ===== src/Node/Closing.antt =====
-- network/node.rs: what handle_close_session leaves.
use white_noise_rs.Prelude.{
  String, ◌≡◌, refl, Option, none, some, List, ◌∷◌, ◌==◌, string_eq, if◌then◌else◌,
}
use white_noise_rs.HashMap.{get, remove, get-remove}
use white_noise_rs.State.{WrappedStream, Session}
use white_noise_rs.Task.{Effect, World, done, stream_close, pure, ◌>>=◌}
use white_noise_rs.Node.Sessions.{close_stream, close_streams, take_session, handle_close_session}

abbrev pub close_effect : Option WrappedStream → List Effect → List Effect
close_effect none out = out
close_effect (some stream) out = stream_close stream ∷ out

-- The early stream first, if it is there, and then the later one.
abbrev pub close_effects : Option Session → List Effect → List Effect
close_effects none out = out
close_effects (some session) out =
    close_effect session.later_stream (close_effect session.early_stream out)

close_stream-done :
    (o : Option WrappedStream) (w : World)
    → close_stream o w ≡ (done tt, record w { out = close_effect o w.out })
unfolding pure ◌>>=◌
close_stream-done none w = refl
close_stream-done (some stream) w = refl

close_streams-done :
    (o : Option Session) (w : World)
    → close_streams o w ≡ (done tt, record w { out = close_effects o w.out })
unfolding pure ◌>>=◌
close_streams-done none w = refl
close_streams-done (some session) w =
    rw (close_stream-done session.early_stream w, ◌>>=◌)
      (close_stream-done session.later_stream
        (record w { out = close_effect session.early_stream w.out }))

abbrev pub closed : String → World → World
closed id w = record w {
  shared = record w.shared {
    session_map = remove w.shared.session_map id;
    circuit_map = remove w.shared.circuit_map id;
    probe_map = remove w.shared.probe_map id;
  };
  out = close_effects (get w.shared.session_map id) w.out;
}

pub handle_close_session-done :
    (id : String) (w : World) → handle_close_session id w ≡ (done tt, closed id w)
unfolding handle_close_session ◌>>=◌
handle_close_session-done id w =
    rw
      (
        close_streams-done (get w.shared.session_map id)
            (record w { shared = (take_session id w.shared).1 }),
        ◌>>=◌,
      )
      refl

-- Closing a session forgets its session, circuit and probe, and those of no other id; it closes the
-- streams that the session had, the early one first, and does nothing else.
pub handle_close_session_clears :
    (id k : String) (w : World)
    → let r = handle_close_session id w in
      (r.0 ≡ done tt)
      × (r.1.out ≡ close_effects (get w.shared.session_map id) w.out)
      × (get r.1.shared.session_map k ≡ (if id == k then none else get w.shared.session_map k))
      × (get r.1.shared.circuit_map k ≡ (if id == k then none else get w.shared.circuit_map k))
      × (get r.1.shared.probe_map k ≡ (if id == k then none else get w.shared.probe_map k))
      × (r.1.shared.client_wn_map ≡ w.shared.client_wn_map)
      × (r.1.shared.event_bus ≡ w.shared.event_bus)
      × (r.1.inputs ≡ w.inputs)
handle_close_session_clears id k w = rw (handle_close_session-done id w) (
  refl,
  refl,
  get-remove w.shared.session_map id k,
  get-remove w.shared.circuit_map id k,
  get-remove w.shared.probe_map id k,
  refl,
  refl,
  refl,
)
