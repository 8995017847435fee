-- ===== src/Swarm/Acks.antt =====
-- network/whitenoise_behaviour.rs: the acks that come in, and the requests that wait for them.
use white_noise_rs.Prelude.{ℕ, ◌≡◌, refl, Bool, true, none, some, [], ◌∷◌, ◌∙◌, ==_refl, string_eq}
use white_noise_rs.HashMap.{get, remove, insert, get-insert, get-remove}
use white_noise_rs.Proto.{Ack}
use white_noise_rs.Host.{PeerId}
use white_noise_rs.State.{Shared}
use white_noise_rs.Node.Waiters.{awaiting}
use white_noise_rs.Swarm.{request_message, resolve, inject_ack_event}

module _ (alive : ℕ → Bool) (p q : PeerId) (ack : Ack) (s : Shared)
    (waits : alive s.next_channel ≡ true) where
  -- While a task waits for the ack of a request, the first ack with the request's key goes to this task and
  -- to no other; after it the key is free again, and a second such ack is dropped without an error.
  pub ack_resolves_once :
      let r = inject_ack_event alive (request_message p ack) (awaiting ack.command_id s) in
      let again = inject_ack_event alive (request_message q ack) r.1 in
      (r.0 ≡ some (resolve s.next_channel ack ∷ []))
      × (get r.1.event_bus ack.command_id ≡ none)
      × (again.0 ≡ some [])
  unfolding inject_ack_event
  ack_resolves_once =
      let bus = insert s.event_bus ack.command_id s.next_channel in
      let there : get bus ack.command_id ≡ some s.next_channel =
        get-insert s.event_bus ack.command_id ack.command_id s.next_channel
        ∙ rw (==_refl ack.command_id) refl in
      let gone : get (remove bus ack.command_id) ack.command_id ≡ none =
        get-remove bus ack.command_id ack.command_id ∙ rw (==_refl ack.command_id) refl in
      (rw there (rw waits refl), gone, rw gone refl)
