-- ===== src/Termination.antt =====
-- The fuel of the four handler tasks: each round of their loops takes an input, so that the fuel which
-- they start with, one more than there are inputs, never runs out.
use white_noise_rs.Prelude.{ℕ, zero, suc, ◌<◌, ◌≢◌, String, Option, none, some, length, arith}
use white_noise_rs.Proto.{Relay}
use white_noise_rs.Host.{Host}
use white_noise_rs.State.{WrappedStream}
use white_noise_rs.Task.{Task, World, spent, pure}
use white_noise_rs.Task.Consumes.{Consumes-pure, inputs_left}
use white_noise_rs.Task.Ends.{
  Ends, Takes, Takes-bind, Takes-wait_for, Ends-take, Ends-bind, Ends-Consumes,
}
use white_noise_rs.Utils.Write.{read_from_negotiated_arc}
use white_noise_rs.Utils.Keeping.{decode_read-Keeps}
use white_noise_rs.RelayEvents.{Turn, stop, go_on, relay_event_loop, relay_event_handler}
use white_noise_rs.Proxy.{proxy_loop, process_proxy_request}
use white_noise_rs.Cmd.{cmd_loop, process_cmd_request}
use white_noise_rs.Publish.{publish_loop, process_publish_request}
use white_noise_rs.Invariant.Updates.{Fits}
use white_noise_rs.Invariant.RelayLoop.{on_read_error-Keeps, on_relay-Keeps}
use white_noise_rs.Invariant.Handlers.{handle_proxy_request-Keeps}
use white_noise_rs.Invariant.Circuits.{handle_cmd_request-Keeps, handle_gossip-Keeps}

no_inputs_left : (w : World) → inputs_left w < 0 → ⊥
no_inputs_left w h = omega arith

next_message :
    {A : Type 0} (fuel : ℕ) (o : Option A) (round : A → Task (Unit {0}))
    → ((a : A) → Ends fuel (round a))
    → Ends {A = Unit {0}} fuel (elim o [ none ↦ pure tt | some a ↦ round a ])
next_message fuel none round k = Ends-Consumes fuel (Consumes-pure tt)
next_message fuel (some a) round k = k a

module _ (host : Host) where
  read-Takes : Takes (read_from_negotiated_arc host)
  unfolding read_from_negotiated_arc
  read-Takes =
      Takes-bind _ _ (Takes-wait_for _)
        (λ msg. (decode_read-Keeps host {P = Fits host 0} msg).consumes)

  next_round :
      (fuel : ℕ) (turn : Turn) (again : Option String → Task (Unit {0}))
      → ((id : Option String) → Ends fuel (again id))
      → Ends {A = Unit {0}} fuel (elim turn [ stop ↦ pure tt | go_on id ↦ again id ])
  next_round fuel stop again k = Ends-Consumes fuel (Consumes-pure tt)
  next_round fuel (go_on id) again k = k id

  read_round :
      (fuel : ℕ) (o : Option Relay) (failed : Task (Unit {0})) (round : Relay → Task (Unit {0}))
      → Ends fuel failed
      → ((relay : Relay) → Ends fuel (round relay))
      → Ends {A = Unit {0}} fuel (elim o [ none ↦ failed | some relay ↦ round relay ])
  read_round fuel none failed round kf kr = kf
  read_round fuel (some relay) failed round kf kr = kr relay

  relay_event_loop-Ends :
      (fuel : ℕ) (stream : WrappedStream) (id : Option String)
      → Ends fuel (relay_event_loop host fuel stream id)
  unfolding relay_event_loop
  relay_event_loop-Ends zero stream id = record { within = λ w h. absurd (no_inputs_left w h) }
  relay_event_loop-Ends (suc fuel) stream id = Ends-take fuel _ _ read-Takes (λ o.
      read_round fuel o _ _
        (Ends-Consumes fuel (on_read_error-Keeps host {floor = 0} stream id).consumes)
        (λ relay.
          Ends-bind fuel _ _ (on_relay-Keeps host {floor = 0} stream id relay).consumes
            (λ turn. next_round fuel turn _ (relay_event_loop-Ends fuel stream))))

  proxy_loop-Ends : (fuel : ℕ) → Ends fuel (proxy_loop host fuel)
  unfolding proxy_loop
  proxy_loop-Ends zero = record { within = λ w h. absurd (no_inputs_left w h) }
  proxy_loop-Ends (suc fuel) = Ends-take fuel _ _ (Takes-wait_for _) (λ o.
      next_message fuel o _ (λ r.
        Ends-bind fuel _ _ (handle_proxy_request-Keeps host {floor = 0} r).consumes
          (λ _. proxy_loop-Ends fuel)))

  cmd_loop-Ends : (fuel : ℕ) → Ends fuel (cmd_loop host fuel)
  unfolding cmd_loop
  cmd_loop-Ends zero = record { within = λ w h. absurd (no_inputs_left w h) }
  cmd_loop-Ends (suc fuel) = Ends-take fuel _ _ (Takes-wait_for _) (λ o. next_message fuel o _ (λ r.
      Ends-bind fuel _ _ (handle_cmd_request-Keeps host {floor = 0} r).consumes
        (λ _. cmd_loop-Ends fuel)))

  publish_loop-Ends : (fuel : ℕ) → Ends fuel (publish_loop host fuel)
  unfolding publish_loop
  publish_loop-Ends zero = record { within = λ w h. absurd (no_inputs_left w h) }
  publish_loop-Ends (suc fuel) = Ends-take fuel _ _ (Takes-wait_for _) (λ o.
      next_message fuel o _ (λ m.
        Ends-bind fuel _ _ (handle_gossip-Keeps host {floor = 0} m).consumes
          (λ _. publish_loop-Ends fuel)))

  -- None of the four handler tasks runs out of fuel, whatever its stream or channel delivers: each
  -- ends by its own `break`, by a panic, or waits for an input that does not come.
  pub handlers_end :
      (stream : WrappedStream) (id : Option String) (w : World)
      → ((relay_event_handler host stream id w).0 ≢ spent)
        × ((process_proxy_request host w).0 ≢ spent)
        × ((process_cmd_request host w).0 ≢ spent)
        × ((process_publish_request host w).0 ≢ spent)
  unfolding relay_event_handler process_proxy_request process_cmd_request process_publish_request
  handlers_end stream id w =
      let enough : length w.inputs < suc (length w.inputs) = omega arith in
      (
        (relay_event_loop-Ends (suc (length w.inputs)) stream id).within w enough,
        (proxy_loop-Ends (suc (length w.inputs))).within w enough,
        (cmd_loop-Ends (suc (length w.inputs))).within w enough,
        (publish_loop-Ends (suc (length w.inputs))).within w enough,
      )
