-- ===== src/Sdk/Sessions.antt =====
-- sdk/client.rs: the circuits that a client is told of.
use white_noise_rs.Prelude.{
  ℕ, zero, suc, is_some, length, refl, Option-cases, String, ◌≡◌, ◌≢◌, Bool, true, false, Option,
  none, some, List, [], ◌∷◌, ◌==◌, ℕ_eq, string_eq, if◌then◌else◌, All, arith, Bool-cases, inl, inr,
  ◌⊎◌,
}
use white_noise_rs.HashMap.{empty, HashMap, insert, contains_key, contains_key_lem, get-insert}
use white_noise_rs.State.{CircuitConn}
use white_noise_rs.Task.{
  Effect, announce, World, Flow, expect, done, panicked, waiting, spent, Input, Task, continue,
  resume, as_elapsed, sleep, wait_for, ◌>>=◌,
}
use white_noise_rs.Sdk.{
  last_unseen, new_session_round, announce_circuit, new_session_loop, process_new_session,
}

abbrev pub announced_by : Effect → List String → List String
announced_by (announce id) l = id ∷ l
announced_by _ l = l

-- The ids that have been announced, the newest first.
abbrev pub announced : List Effect → List String
announced [] = []
announced (e ∷ out) = announced_by e (announced out)

abbrev pub Distinct : List String → Type 0
Distinct [] = Unit
Distinct (x ∷ xs) = All (λ y. y ≢ x) xs × Distinct xs

-- What is announced is in the map of what is known, and nothing twice.
abbrev pub Known : HashMap String Bool → List String → Type 0
Known exist ids = All (λ id. contains_key exist id ≡ true) ids × Distinct ids

abbrev Unseen : HashMap String Bool → Option (String × CircuitConn) → Type 0
Unseen exist none = Unit
Unseen exist (some (id, c)) = contains_key exist id ≡ false

last_unseen-Unseen :
    (exist : HashMap String Bool) (l : List (String × CircuitConn))
    (found : Option (String × CircuitConn))
    → Unseen exist found
    → Unseen exist (last_unseen exist l found)
unfolding last_unseen
last_unseen-Unseen exist [] found h = h
last_unseen-Unseen exist ((id, c) ∷ l) found h = elim (Bool-cases (contains_key exist id)) [
  | inl seen ↦ rw seen (last_unseen-Unseen exist l found h)
  | inr new ↦ rw new (last_unseen-Unseen exist l (some (id, c)) new)
]

contains-insert :
    (exist : HashMap String Bool) (id k : String)
    → contains_key (insert exist id true) k ≡ (if id == k then true else contains_key exist k)
contains-insert exist id k = ground (
  arith,
  contains_key_lem exist k,
  contains_key_lem (insert exist id true) k,
  get-insert exist id k true,
)

insert-knows :
    (exist : HashMap String Bool) (id : String) (ids : List String)
    → All (λ k. contains_key exist k ≡ true) ids
    → All (λ k. contains_key (insert exist id true) k ≡ true) ids
insert-knows exist id [] h = tt
insert-knows exist id (k ∷ ids) h =
    (ground (arith, contains-insert exist id k, h.0), insert-knows exist id ids h.1)

others-differ :
    (exist : HashMap String Bool) (id : String) (ids : List String)
    → contains_key exist id ≡ false
    → All (λ k. contains_key exist k ≡ true) ids
    → All (λ k. k ≢ id) ids
others-differ exist id [] new h = tt
others-differ exist id (k ∷ ids) new h =
    (λ e. absurd (cc (e, new, h.0)), others-differ exist id ids new h.1)

announce-Known :
    (exist : HashMap String Bool) (id : String) (ids : List String)
    → contains_key exist id ≡ false
    → Known exist ids
    → Known (insert exist id true) (id ∷ ids)
announce-Known exist id ids new h = (
  (
    ground (arith, contains-insert exist id id, string_eq.agrees id id),
    insert-knows exist id ids h.0,
  ),
  (others-differ exist id ids new h.0, h.1),
)

abbrev Announces : HashMap String Bool → World → Flow (HashMap String Bool) × World → Type 0
Announces exist w r =
    (r ≡ (done exist, w))
    ⊎ ((id : String) × (contains_key exist id ≡ false)
        × (r ≡ (done (insert exist id true), record w { out = announce id ∷ w.out })))

announce-cases :
    (exist : HashMap String Bool) (o : Option (String × CircuitConn)) (w : World)
    → Unseen exist o
    → Announces exist w (announce_circuit exist o w)
unfolding announce_circuit ◌>>=◌
announce-cases exist none w h = inl refl
announce-cases exist (some (id, c)) w h = elim (Bool-cases (is_some c.transport_state)) [
  | inl shaken ↦ inr (id, h, rw shaken refl)
  | inr open_yet ↦ inl (rw open_yet refl)
]

-- A wait changes no effect.
resume-expect-out :
    (is : List Input) (w : World)
    → (continue (resume is w).0 (λ a. expect (as_elapsed a)) (resume is w).1).1.out ≡ w.out
unfolding expect
resume-expect-out [] w = refl
resume-expect-out (i ∷ is) w = elim (Option-cases (as_elapsed i.answer)) [
  | inl other ↦ rw other refl
  | inr (a, e) ↦ rw e refl
]

sleep-out : (w : World) → (sleep w).1.out ≡ w.out
unfolding wait_for ◌>>=◌
sleep-out w = resume-expect-out w.inputs (record w { seen = w.shared ∷ w.seen })

continue-out :
    (r : Flow (Unit {0})) (next : Task (Unit {0})) (v : World) (Q : List Effect → Type 0)
    → Q v.out
    → Q (next v).1.out
    → Q (continue r (λ _. next) v).1.out
continue-out (done a) next v Q now later = later
continue-out panicked next v Q now later = now
continue-out waiting next v Q now later = now
continue-out spent next v Q now later = now

after_sleep :
    (exist : HashMap String Bool) (v : World) (again : Task (Unit {0}))
    → Known exist (announced v.out)
    → ((u : World) → Known exist (announced u.out) → Distinct (announced (again u).1.out))
    → Distinct (announced (continue (sleep v).0 (λ _. again) (sleep v).1).1.out)
after_sleep exist v again k rest =
    continue-out (sleep v).0 again (sleep v).1 (λ out. Distinct (announced out))
      (rw (sleep-out v) k.1) (rest (sleep v).1 (rw (sleep-out v) k))

module _ (iter : HashMap String CircuitConn → List (String × CircuitConn)) where
  round-cases :
      (exist : HashMap String Bool) (w : World) → Announces exist w (new_session_round iter exist w)
  unfolding new_session_round ◌>>=◌
  round-cases exist w = elim (Bool-cases (length (iter w.shared.circuit_map) == 0)) [
    | inl none_there ↦ inl (rw none_there refl)
    | inr some_there ↦ rw some_there (
        announce-cases exist (last_unseen exist (iter w.shared.circuit_map) none) w
          (last_unseen-Unseen exist (iter w.shared.circuit_map) none tt))
  ]

  loop-Known :
      (fuel : ℕ) (exist : HashMap String Bool) (w : World)
      → Known exist (announced w.out)
      → Distinct (announced (new_session_loop iter fuel exist w).1.out)
  unfolding new_session_loop ◌>>=◌
  loop-Known zero exist w h = h.1
  loop-Known (suc fuel) exist w h = elim (round-cases exist w) [
    | inl same ↦ rw (same, ◌>>=◌) (after_sleep exist w _ h (loop-Known fuel exist))
    | inr (id, new, told) ↦
        rw (told, ◌>>=◌)
          (after_sleep (insert exist id true) (record w { out = announce id ∷ w.out }) _
            (announce-Known exist id (announced w.out) new h)
            (loop-Known fuel (insert exist id true)))
  ]

  -- A client is told of no circuit twice, in whatever order the map is walked over and whatever the other
  -- tasks do to it in the meantime.
  pub process_new_session_once :
      (w : World) → announced w.out ≡ [] → Distinct (announced (process_new_session iter w).1.out)
  unfolding process_new_session
  process_new_session_once w e = loop-Known (suc (length w.inputs)) empty w (rw e (tt, tt))
