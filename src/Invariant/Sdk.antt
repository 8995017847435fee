-- ===== src/Invariant/Sdk.antt =====
-- sdk/client.rs: the two loops of a client keep the invariant.
use white_noise_rs.Prelude.{
  ℕ, zero, suc, String, Bool, Option, none, some, List, [], ◌∷◌, length, string_eq, ℕ_eq,
}
use white_noise_rs.HashMap.{HashMap}
use white_noise_rs.Host.{Host}
use white_noise_rs.State.{CircuitConn, WrappedStream, Shared}
use white_noise_rs.Task.{Task, pure}
use white_noise_rs.Task.Keeps.{
  Preserves, Preserves-bind, Preserves-Keeps, Preserves-out_of_fuel, Keeps, keeps_rules, Keeps-pure,
  Keeps-emit, Keeps-modifies, Keeps-wait_for,
}
use white_noise_rs.Node.Streams.{pop_in, wait_for_relay_stream}
use white_noise_rs.Sdk.{process_new_stream, announce_circuit, new_session_round, new_session_loop}
use white_noise_rs.Invariant.Updates.{Fits, in_streams-Fits}

module _ (host : Host) {floor : ℕ} where
  pop_in-Fits :
      (q : List WrappedStream) (s : Shared) → Fits host floor s → Fits host floor (pop_in q s).1
  pop_in-Fits [] s h = h
  pop_in-Fits (stream ∷ q) s h = in_streams-Fits h q

  found_or_sleep :
      (o : Option WrappedStream) (again : Task WrappedStream)
      → Preserves (Fits host floor) again
      → Preserves (Fits host floor) (elim o [ some stream ↦ pure stream | none ↦ again ])
  found_or_sleep none again k = k
  found_or_sleep (some stream) again k = Preserves-Keeps (Keeps-pure _)

  wait_for_relay_stream-Preserves :
      (fuel : ℕ) → Preserves (Fits host floor) (wait_for_relay_stream fuel)
  unfolding wait_for_relay_stream
  wait_for_relay_stream-Preserves zero = Preserves-out_of_fuel
  wait_for_relay_stream-Preserves (suc fuel) =
      Preserves-bind _ _
        (Preserves-Keeps (Keeps-modifies _ (λ s h. pop_in-Fits s.relay_in_streams s h)))
        (λ o. found_or_sleep o _ (
          Preserves-bind _ _ (Preserves-Keeps (Keeps-wait_for _))
            (λ _. wait_for_relay_stream-Preserves fuel)))

  pub process_new_stream-Preserves :
      (fuel : ℕ) → Preserves (Fits host floor) (process_new_stream fuel)
  unfolding process_new_stream
  process_new_stream-Preserves zero = Preserves-out_of_fuel
  process_new_stream-Preserves (suc fuel) =
      Preserves-bind _ _
        (record { at = λ w. (wait_for_relay_stream-Preserves (suc (length w.inputs))).at w })
        (λ stream.
          Preserves-bind _ _ (Preserves-Keeps (Keeps-emit _))
            (λ _. process_new_stream-Preserves fuel))

  announce_circuit-Keeps :
      (exist : HashMap String Bool) (o : Option (String × CircuitConn))
      → Keeps (Fits host floor) (announce_circuit exist o)
  unfolding announce_circuit
  announce_circuit-Keeps exist none = Keeps-pure exist
  announce_circuit-Keeps exist (some (id, c)) = search keeps_rules

  module _ (iter : HashMap String CircuitConn → List (String × CircuitConn)) where
    new_session_round-Keeps :
        (exist : HashMap String Bool) → Keeps (Fits host floor) (new_session_round iter exist)
    unfolding new_session_round
    new_session_round-Keeps exist = search (keeps_rules, announce_circuit-Keeps)

    pub new_session_loop-Preserves :
        (fuel : ℕ) (exist : HashMap String Bool)
        → Preserves (Fits host floor) (new_session_loop iter fuel exist)
    unfolding new_session_loop
    new_session_loop-Preserves zero exist = Preserves-out_of_fuel
    new_session_loop-Preserves (suc fuel) exist =
        Preserves-bind _ _ (Preserves-Keeps (new_session_round-Keeps exist)) (λ next.
          Preserves-bind _ _ (Preserves-Keeps (Keeps-wait_for _))
            (λ _. new_session_loop-Preserves fuel next))
