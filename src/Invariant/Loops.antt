-- ===== src/Invariant/Loops.antt =====
-- The three tasks that read the event channels keep the invariant, whatever messages come.
use white_noise_rs.Prelude.{All, ℕ, zero, suc, Option, none, some, length}
use white_noise_rs.Host.{Host}
use white_noise_rs.Task.{World, Task, pure}
use white_noise_rs.Task.Keeps.{
  Rely, Preserves, Preserves-bind, Preserves-Keeps, Preserves-out_of_fuel, Keeps-pure,
  Keeps-wait_for,
}
use white_noise_rs.Proxy.{proxy_loop, process_proxy_request}
use white_noise_rs.Cmd.{cmd_loop, process_cmd_request}
use white_noise_rs.Publish.{publish_loop, process_publish_request}
use white_noise_rs.Invariant.Updates.{Fits}
use white_noise_rs.Invariant.Handlers.{handle_proxy_request-Keeps}
use white_noise_rs.Invariant.Circuits.{handle_cmd_request-Keeps, handle_gossip-Keeps}

module _ (host : Host) {floor : ℕ} where
  next_message :
      {A : Type 0} (o : Option A) (round : A → Task (Unit {0}))
      → ((a : A) → Preserves (Fits host floor) (round a))
      → Preserves {A = Unit {0}} (Fits host floor) (elim o [ none ↦ pure tt | some a ↦ round a ])
  next_message none round k = Preserves-Keeps (Keeps-pure tt)
  next_message (some a) round k = k a

  proxy_loop-Preserves : (fuel : ℕ) → Preserves (Fits host floor) (proxy_loop host fuel)
  unfolding proxy_loop
  proxy_loop-Preserves zero = Preserves-out_of_fuel
  proxy_loop-Preserves (suc fuel) = Preserves-bind _ _ (Preserves-Keeps (Keeps-wait_for _)) (λ o.
      next_message o _ (λ r.
        Preserves-bind _ _ (Preserves-Keeps (handle_proxy_request-Keeps host r))
          (λ _. proxy_loop-Preserves fuel)))

  cmd_loop-Preserves : (fuel : ℕ) → Preserves (Fits host floor) (cmd_loop host fuel)
  unfolding cmd_loop
  cmd_loop-Preserves zero = Preserves-out_of_fuel
  cmd_loop-Preserves (suc fuel) = Preserves-bind _ _ (Preserves-Keeps (Keeps-wait_for _)) (λ o.
      next_message o _ (λ r.
        Preserves-bind _ _ (Preserves-Keeps (handle_cmd_request-Keeps host r))
          (λ _. cmd_loop-Preserves fuel)))

  publish_loop-Preserves : (fuel : ℕ) → Preserves (Fits host floor) (publish_loop host fuel)
  unfolding publish_loop
  publish_loop-Preserves zero = Preserves-out_of_fuel
  publish_loop-Preserves (suc fuel) = Preserves-bind _ _ (Preserves-Keeps (Keeps-wait_for _)) (λ o.
      next_message o _ (λ m.
        Preserves-bind _ _ (Preserves-Keeps (handle_gossip-Keeps host m))
          (λ _. publish_loop-Preserves fuel)))

  -- The task of the requests from other peers, whatever messages come and whatever the other tasks do
  -- that keeps the invariant: the maps fit at the end and at every suspension point, and so it is when
  -- the task panics or waits for ever.
  pub process_proxy_request-Fits :
      (w : World)
      → Fits host floor w.shared
      → Rely (Fits host floor) w.inputs
      → All (Fits host floor) w.seen
      → let r = process_proxy_request host w in
        Fits host floor r.1.shared × All (Fits host floor) r.1.seen
  unfolding process_proxy_request
  process_proxy_request-Fits w fits rely seen =
      let s = (proxy_loop-Preserves (suc (length w.inputs))).at w (fits, rely, seen) in (s.0, s.2)

  -- The task of the commands, whatever commands come and whatever the other tasks do that keeps the
  -- invariant: the maps fit at the end and at every suspension point.
  pub process_cmd_request-Fits :
      (w : World)
      → Fits host floor w.shared
      → Rely (Fits host floor) w.inputs
      → All (Fits host floor) w.seen
      → let r = process_cmd_request host w in
        Fits host floor r.1.shared × All (Fits host floor) r.1.seen
  unfolding process_cmd_request
  process_cmd_request-Fits w fits rely seen =
      let s = (cmd_loop-Preserves (suc (length w.inputs))).at w (fits, rely, seen) in (s.0, s.2)

  -- The task of the gossip messages, whatever messages come and whatever the other tasks do that keeps
  -- the invariant: the maps fit at the end and at every suspension point.
  pub process_publish_request-Fits :
      (w : World)
      → Fits host floor w.shared
      → Rely (Fits host floor) w.inputs
      → All (Fits host floor) w.seen
      → let r = process_publish_request host w in
        Fits host floor r.1.shared × All (Fits host floor) r.1.seen
  unfolding process_publish_request
  process_publish_request-Fits w fits rely seen =
      let s = (publish_loop-Preserves (suc (length w.inputs))).at w (fits, rely, seen) in (s.0, s.2)
