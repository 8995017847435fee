-- ===== src/Handshake/Unverified.antt =====
-- network/relay_event_handler.rs: process_handshake logs whether the other end has proved its identity.
use white_noise_rs.Prelude.{ℕ, String, ◌≡◌, refl, Bool, true, false, List, inl, inr, Option-cases}
use white_noise_rs.Host.{Host}
use white_noise_rs.State.{CircuitConn}
use white_noise_rs.Task.{Flow, World, Task, done, panicked, waiting, spent, continue, ◌>>=◌}
use white_noise_rs.Handshake.{
  Noise, new_noise_keys, handle_remote_handshake_payload, generate_handshake_payload,
  handle_read_shake, check_remote, write_handshake_payload_arc, initiate_handshake,
  respond_handshake, process_handshake,
}

continue-ext :
    {A B : Type 0} (r : Flow A) (f g : A → Task B) (w : World)
    → ((a : A) (v : World) → f a v ≡ g a v)
    → continue r f w ≡ continue r g w
continue-ext (done a) f g w e = e a w
continue-ext panicked f g w e = refl
continue-ext waiting f g w e = refl
continue-ext spent f g w e = refl

bind-ext :
    {A B : Type 0} (m : Task A) (f g : A → Task B) (w : World)
    → ((a : A) (v : World) → f a v ≡ g a v)
    → (m >>= f) w ≡ (m >>= g) w
unfolding ◌>>=◌
bind-ext m f g w e = continue-ext (m w).0 f g (m w).1 e

module _ {S : Type 0} (noise : Noise S) (verify : List ℕ → List ℕ → List ℕ → Bool) where
  abbrev trusting : Noise S
  trusting = record noise { verify = verify }

  check-ignored :
      (payload : List ℕ) (state : S) (next : Task (Unit {0})) (w : World)
      → (check_remote trusting payload state >>= λ _. next) w
        ≡ (check_remote noise payload state >>= λ _. next) w
  unfolding handle_remote_handshake_payload ◌>>=◌
  check-ignored payload state next w = elim (Option-cases (noise.get_remote_static state)) [
    | inl none_there ↦ rw none_there refl
    | inr (remote, e) ↦ rw e (elim (Option-cases (noise.payload.decode payload)) [
      | inl bad ↦ rw bad refl
      | inr (m, d) ↦ rw d (elim (Option-cases (noise.valid_public_key m.identity_key)) [
        | inl bad_key ↦ rw bad_key refl
        | inr (key, k) ↦ rw k refl
      ])
    ])
  ]

  -- What the end of a handshake does, and what it leaves, is the same whether the other end's signature is
  -- valid or not: with any other function in the place of the signature check the handshake of either
  -- role has the same result and the same effects.
  pub process_handshake_unverified :
      (host : Host) (c : CircuitConn) (initiate : Bool) (id : String) (w : World)
      → process_handshake host trusting c initiate id w
        ≡ process_handshake host noise c initiate id w
  unfolding process_handshake initiate_handshake respond_handshake new_noise_keys
      generate_handshake_payload handle_read_shake write_handshake_payload_arc
  process_handshake_unverified host c true id w = bind-ext _ _ _ w (λ keys v.
      bind-ext _ _ _ v (λ start v'.
        bind-ext _ _ _ v'
          (λ nil u. bind-ext _ _ _ u (λ answer u'. check-ignored answer.0 answer.1 _ u'))))
  process_handshake_unverified host c false id w = bind-ext _ _ _ w (λ keys v.
      bind-ext _ _ _ v (λ own v1. bind-ext _ _ _ v1 (λ start v2. bind-ext _ _ _ v2 (λ nil v3.
        bind-ext _ _ _ v3 (λ payload v4.
          bind-ext _ _ _ v4
            (λ sent v5. bind-ext _ _ _ v5 (λ answer u. check-ignored answer.0 answer.1 _ u)))))))
