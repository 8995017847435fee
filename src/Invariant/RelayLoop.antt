-- ===== src/Invariant/RelayLoop.antt =====
-- network/relay_event_handler.rs: the loop keeps the invariant.
use white_noise_rs.Prelude.{All, ℕ, zero, suc, String, Option, none, some, length}
use white_noise_rs.Proto.{Relay, Disconnect}
use white_noise_rs.Host.{Host}
use white_noise_rs.State.{WrappedStream}
use white_noise_rs.Task.{World, Task, pure}
use white_noise_rs.Task.Keeps.{
  Rely, Preserves, Preserves-bind, Preserves-Keeps, Preserves-out_of_fuel, Keeps, keeps_rules,
  Keeps-bind, Keeps-pure, Keeps-when, Keeps-unwrap, Keeps-reads,
}
use white_noise_rs.Utils.Keeping.{read_from_negotiated_arc-Keeps}
use white_noise_rs.RelayEvents.{
  Turn, stop, go_on, on_read_error, on_disconnect, on_set_session_id, on_relay, relay_event_loop,
  relay_event_handler,
}
use white_noise_rs.Invariant.Updates.{Fits}
use white_noise_rs.Invariant.Sessions.{handle_close_session-Keeps}
use white_noise_rs.Invariant.Relaying.{
  handle_relay_probe-Keeps, handle_success-Keeps, handle_relay_msg-Keeps, add_circuit_conn-Keeps,
  handle_set_session-Keeps,
}

module _ (host : Host) {floor : ℕ} where
  pub on_read_error-Keeps :
      (stream : WrappedStream) (id : Option String)
      → Keeps (Fits host floor) (on_read_error stream id)
  unfolding on_read_error
  on_read_error-Keeps stream none = Keeps-pure tt
  on_read_error-Keeps stream (some id) =
      Keeps-bind _ _ (Keeps-reads _) (λ b. Keeps-when b _ (handle_close_session-Keeps host id))

  on_disconnect-Keeps : (o : Option Disconnect) → Keeps (Fits host floor) (on_disconnect o)
  on_disconnect-Keeps none = Keeps-pure stop
  on_disconnect-Keeps (some m) =
      Keeps-bind _ _ (handle_close_session-Keeps host m.session_id) (λ _. Keeps-pure stop)

  on_set_session_id-Keeps :
      (stream : WrappedStream) (id : Option String) (relay : Relay)
      → Keeps (Fits host floor) (on_set_session_id host stream id relay)
  unfolding on_set_session_id
  on_set_session_id-Keeps stream id relay = Keeps-bind _ _ (Keeps-unwrap _) (λ msg.
      Keeps-bind _ _ (Keeps-unwrap _) (λ known.
        Keeps-bind _ _ (Keeps-when _ _ (add_circuit_conn-Keeps host known stream)) (λ _.
          Keeps-bind _ _ (handle_set_session-Keeps host msg stream relay.id) (λ _. Keeps-pure _))))

  pub on_relay-Keeps :
      (stream : WrappedStream) (id : Option String) (relay : Relay)
      → Keeps (Fits host floor) (on_relay host stream id relay)
  unfolding on_relay
  on_relay-Keeps stream id relay =
      search
        (
          keeps_rules, on_disconnect-Keeps, on_set_session_id-Keeps, handle_relay_probe-Keeps,
          handle_success-Keeps, handle_relay_msg-Keeps,
        )
        depth 14

  next_round :
      (turn : Turn) (again : Option String → Task (Unit {0}))
      → ((id : Option String) → Preserves (Fits host floor) (again id))
      → Preserves {A = Unit {0}}
          (Fits host floor)
          (elim turn [ stop ↦ pure tt | go_on id ↦ again id ])
  next_round stop again k = Preserves-Keeps (Keeps-pure tt)
  next_round (go_on id) again k = k id

  read_round :
      (o : Option Relay) (failed : Task (Unit {0})) (round : Relay → Task (Unit {0}))
      → Preserves (Fits host floor) failed
      → ((relay : Relay) → Preserves (Fits host floor) (round relay))
      → Preserves {A = Unit {0}}
          (Fits host floor)
          (elim o [ none ↦ failed | some relay ↦ round relay ])
  read_round none failed round kf kr = kf
  read_round (some relay) failed round kf kr = kr relay

  relay_event_loop-Preserves :
      (fuel : ℕ) (stream : WrappedStream) (id : Option String)
      → Preserves (Fits host floor) (relay_event_loop host fuel stream id)
  unfolding relay_event_loop
  relay_event_loop-Preserves zero stream id = Preserves-out_of_fuel
  relay_event_loop-Preserves (suc fuel) stream id =
      Preserves-bind _ _ (Preserves-Keeps (read_from_negotiated_arc-Keeps host)) (λ o.
        read_round o _ _ (Preserves-Keeps (on_read_error-Keeps stream id)) (λ relay.
          Preserves-bind _ _ (Preserves-Keeps (on_relay-Keeps stream id relay))
            (λ turn. next_round turn _ (relay_event_loop-Preserves fuel stream))))

  -- The task of one relay stream, whatever its peer sends and whatever the other tasks do that keeps the
  -- invariant: the maps fit at the end and at every suspension point, and so it is when the task panics
  -- or waits for ever.
  pub relay_event_handler-Fits :
      (stream : WrappedStream) (id : Option String) (w : World)
      → Fits host floor w.shared
      → Rely (Fits host floor) w.inputs
      → All (Fits host floor) w.seen
      → let r = relay_event_handler host stream id w in
        Fits host floor r.1.shared × All (Fits host floor) r.1.seen
  unfolding relay_event_handler
  relay_event_handler-Fits stream id w fits rely seen =
      let s =
        (relay_event_loop-Preserves (suc (length w.inputs)) stream id).at w (fits, rely, seen) in
      (s.0, s.2)
