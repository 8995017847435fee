-- ===== src/RelayEvents/Delivery.antt =====
-- network/relay_event_handler.rs: where the data of a circuit goes, and what the end of a stream does.
use white_noise_rs.Prelude.{true, false, ◌⊎◌, ==_refl, subst, sym, ◌∙◌}
use white_noise_rs.RelayEvents.{is_stream}
use white_noise_rs.Prelude.{
  String, ◌≡◌, refl, Bool, Bool-cases, inl, inr, ◌||◌, Option, none, some, List, ◌∷◌, string_eq,
  arith, ◌==◌, ℕ_eq, if◌then◌else◌,
}
use white_noise_rs.HashMap.{get}
use white_noise_rs.Proto.{Relay, RelayMsg}
use white_noise_rs.Host.{Host}
use white_noise_rs.State.{
  WrappedStream, Session, CircuitConn, role_i32, caller_role, answer_role, ready,
}
use white_noise_rs.Task.{Effect, World, done, circuit_send, pure, when, ◌>>=◌}
use white_noise_rs.Utils.Forward.{forward_relay}
use white_noise_rs.Node.Closing.{closed, handle_close_session-done}
use white_noise_rs.RelayEvents.{has_stream, on_read_error}
use white_noise_rs.RelayEvents.Circuits.{handle_relay_msg, send_to_circuit}

abbrev pub is_end : Session → Bool
is_end session =
    session.session_role == role_i32 answer_role || session.session_role == role_i32 caller_role

abbrev pub deliver_effect : Option CircuitConn → RelayMsg → List Effect → List Effect
deliver_effect none msg out = out
deliver_effect (some c) msg out = circuit_send c.channel msg.payload ∷ out

module _ (host : Host) (relay : Relay) (msg : RelayMsg) (stream : WrappedStream) (w : World)
    (decodes : host.relay_msg.decode relay.payload ≡ some msg) where
  -- At the caller and at the answer the payload of a data message goes to the circuit of its session, if there
  -- is one, and nowhere else. At a node between them the whole message is passed on, unless a stream is
  -- missing, and at a node without the session it is dropped.
  pub handle_relay_msg_delivers :
      (o : Option Session)
      → get w.shared.session_map msg.session_id ≡ o
      → handle_relay_msg host relay stream w ≡ (elim o [
        | none ↦ (done tt, w)
        | some session ↦
            if is_end session
            then (
              done tt,
              record w { out = deliver_effect (get w.shared.circuit_map msg.session_id) msg w.out },
            )
            else if ready session
            then forward_relay host session stream.stream_id relay w
            else (done tt, w)
      ])
  unfolding handle_relay_msg ◌>>=◌ pure when
  handle_relay_msg_delivers none found = rw decodes (rw found refl)
  handle_relay_msg_delivers (some session) found = elim (Bool-cases (is_end session)) [
    | inl ends ↦
        rw decodes (rw found (rw ends (delivered (get w.shared.circuit_map msg.session_id))))
    | inr between ↦ rw decodes (rw found (rw between (ground arith)))
  ]
    where
      delivered :
          (c : Option CircuitConn)
          → send_to_circuit msg c w ≡ (done tt, record w { out = deliver_effect c msg w.out })
      delivered none = refl
      delivered (some c) = refl

-- The stream of that id is one of the two that the session has.
abbrev pub IsOneOf : Session → String → Type 0
IsOneOf session id =
    (s : WrappedStream) × ((session.early_stream ≡ some s) ⊎ (session.later_stream ≡ some s))
    × (s.stream_id ≡ id)

-- The node has the session of that id, and the stream is one of its two.
abbrev pub Owns : World → String → WrappedStream → Type 0
Owns w id stream =
    (session : Session) × (get w.shared.session_map id ≡ some session)
    × IsOneOf session stream.stream_id

is_stream-some :
    (o : Option WrappedStream) (id : String)
    → is_stream o id ≡ true
    → (s : WrappedStream) × (o ≡ some s) × (s.stream_id ≡ id)
is_stream-some none id e = absurd cc
is_stream-some (some s) id e = (s, refl, (string_eq.agrees s.stream_id id).0 e)

stream_of_id :
    (o : Option WrappedStream) (s : WrappedStream) → o ≡ some s → is_stream o s.stream_id ≡ true
stream_of_id o s e = rw e (==_refl s.stream_id)

has_stream-IsOneOf :
    (session : Session) (id : String) → has_stream (some session) id ≡ true → IsOneOf session id
has_stream-IsOneOf session id e = elim (Bool-cases (is_stream session.early_stream id)) [
  | inl early ↦
      let (s, found, same) = is_stream-some session.early_stream id early in (s, inl found, same)
  | inr not_early ↦
      let (s, found, same) = is_stream-some session.later_stream id (ground arith) in
      (s, inr found, same)
]

has_stream-true :
    (session : Session) (id : String) → IsOneOf session id → has_stream (some session) id ≡ true
has_stream-true session id (s, inl early, same) =
    let e : is_stream session.early_stream id ≡ true =
      subst (λ i. is_stream session.early_stream i ≡ true) same
        (stream_of_id session.early_stream s early) in
    ground arith
has_stream-true session id (s, inr later, same) =
    let e : is_stream session.later_stream id ≡ true =
      subst (λ i. is_stream session.later_stream i ≡ true) same
        (stream_of_id session.later_stream s later) in
    ground arith

has_stream-Owns :
    (o : Option Session) (w : World) (id : String) (stream : WrappedStream)
    → get w.shared.session_map id ≡ o
    → ((has_stream o stream.stream_id ≡ true) × Owns w id stream)
      ⊎ ((has_stream o stream.stream_id ≡ false) × (Owns w id stream → ⊥))
has_stream-Owns none w id stream e = inr (refl, λ own. absurd (cc (sym e ∙ own.1)))
has_stream-Owns (some session) w id stream e =
    elim (Bool-cases (has_stream (some session) stream.stream_id)) [
      | inl yes_ ↦ inl (yes_, (session, e, has_stream-IsOneOf session stream.stream_id yes_))
      | inr no_ ↦ inr (
        no_,
        λ own.
            let there : has_stream (get w.shared.session_map id) stream.stream_id ≡ true =
              rw own.1 (has_stream-true own.0 stream.stream_id own.2) in
            let missing : has_stream (get w.shared.session_map id) stream.stream_id ≡ false =
              rw e no_ in
            absurd (cc (sym there ∙ missing)),
      )
    ]

-- When a stream ends that has no session yet, nothing happens. One that has a session closes it if the stream
-- is one of the two that the session has; a stream that was replaced, or that never joined the session,
-- takes nothing with it.
pub on_read_error_closes_own :
    (stream : WrappedStream) (id : String) (w : World)
    → (on_read_error stream none w ≡ (done tt, w))
      × ((Owns w id stream × (on_read_error stream (some id) w ≡ (done tt, closed id w)))
          ⊎ ((¬ Owns w id stream) × (on_read_error stream (some id) w ≡ (done tt, w))))
unfolding on_read_error ◌>>=◌ pure when
on_read_error_closes_own stream id w = (
  refl,
  elim (has_stream-Owns (get w.shared.session_map id) w id stream refl) [
    | inl (has, own) ↦ inl (own, rw has (handle_close_session-done id w))
    | inr (other, none_) ↦ inr (none_, rw other refl)
  ],
)
