-- ===== src/Sdk/Rounds.antt =====
-- sdk/client.rs: which circuit a round of process_new_session announces.
use white_noise_rs.Prelude.{
  ℕ, is_some, length, refl, length-append, ◌++◌, String, ◌≡◌, Bool, true, false, Option, none, some,
  List, [], ◌∷◌, ◌==◌, ℕ_eq, string_eq, if◌then◌else◌, All, arith,
}
use white_noise_rs.HashMap.{HashMap, insert, contains_key}
use white_noise_rs.State.{CircuitConn}
use white_noise_rs.Task.{◌>>◌, announce, World, done, ◌>>◌, emit, pure, ◌>>=◌}
use white_noise_rs.Sdk.{last_unseen, new_session_round, announce_circuit}

last_unseen-skips :
    (exist : HashMap String Bool) (l : List (String × CircuitConn))
    (found : Option (String × CircuitConn))
    → All (λ x. contains_key exist x.0 ≡ true) l
    → last_unseen exist l found ≡ found
unfolding last_unseen
last_unseen-skips exist [] found h = refl
last_unseen-skips exist ((id, c) ∷ l) found h =
    rw (h.0, last_unseen) (last_unseen-skips exist l found h.1)

last_found :
    (exist : HashMap String Bool) (before after : List (String × CircuitConn)) (id : String)
    (c : CircuitConn) (found : Option (String × CircuitConn))
    → contains_key exist id ≡ false
    → All (λ x. contains_key exist x.0 ≡ true) after
    → last_unseen exist (before ++ (id, c) ∷ after) found ≡ some (id, c)
unfolding last_unseen
last_found exist [] after id c found new seen =
    rw (new, last_unseen) (last_unseen-skips exist after (some (id, c)) seen)
last_found exist ((k, d) ∷ before) after id c found new seen =
    last_found exist before after id c (if contains_key exist k then found else some (k, d)) new
      seen

some_there :
    {A : Type 0} (before after : List A) (x : A) → (length (before ++ x ∷ after) == 0) ≡ false
some_there before after x = ground (arith, length-append before (x ∷ after))

-- The last circuit in the order of the walk that is not announced yet is announced in this round if its
-- handshake is over; and if it is not, no circuit is announced, also none that stands before it.
pub new_session_round_last :
    (iter : HashMap String CircuitConn → List (String × CircuitConn)) (exist : HashMap String Bool)
    (before after : List (String × CircuitConn)) (id : String) (c : CircuitConn) (w : World)
    → iter w.shared.circuit_map ≡ before ++ (id, c) ∷ after
    → contains_key exist id ≡ false
    → All (λ x. contains_key exist x.0 ≡ true) after
    → new_session_round iter exist w ≡ (
        if is_some c.transport_state
        then (done (insert exist id true), record w { out = announce id ∷ w.out })
        else (done exist, w))
unfolding new_session_round announce_circuit ◌>>=◌
new_session_round_last iter exist before after id c w order new seen = rw order (
    rw (some_there before after (id, c))
      (rw (last_found exist before after id c none new seen) (split c.transport_state)))
  where
    split :
        (o : Option ℕ)
        → (if is_some o then (do emit (announce id); pure (insert exist id true)) else pure exist) w
          ≡ (if is_some o
              then (done (insert exist id true), record w { out = announce id ∷ w.out })
              else (done exist, w))
    split none = refl
    split (some state) = refl
