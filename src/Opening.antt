-- ===== src/Opening.antt =====
-- network/node.rs, network/relay_event_handler.rs and network/whitenoise_behaviour.rs: how two nodes open a session
-- between them.
use white_noise_rs.Prelude.{
  ◌∙◌, ==_refl, ℕ, String, ◌≡◌, refl, Bool, true, false, Option, none, some, List, [], ◌∷◌, ◌==◌,
  string_eq, ℕ_eq,
}
use white_noise_rs.HashMap.{get}
use white_noise_rs.Proto.{Ack, Relay, SetSessionIdMsg}
use white_noise_rs.Host.{Host, PeerId}
use white_noise_rs.State.{WrappedStream, Session, role_i32, answer_role}
use white_noise_rs.Task.{Input, World, done, elapsed, resolved, spawn_relay_handler, when, ◌>>=◌}
use white_noise_rs.Utils.Write.{with_id, read_from_negotiated_arc}
use white_noise_rs.Connection.Roundtrip.{heard}
use white_noise_rs.Task.{read_ok, wait_for, expect}
use white_noise_rs.Utils.Sending.{sent, padded}
use white_noise_rs.Node.Sessions.{joined, new_session_to_peer}
use white_noise_rs.Node.Waiters.{awaiting}
use white_noise_rs.Node.Opening.{wake_message, set_session_message, stream_taken, new_session_opens}
use white_noise_rs.RelayEvents.{go_on, on_relay, on_set_session_id}
use white_noise_rs.RelayEvents.Joining.{is_entry_and_relay}
use white_noise_rs.RelayEvents.Roles.{set_session_ack, set_session_joins}
use white_noise_rs.Swarm.{request_message, resolve, inject_ack_event}
use white_noise_rs.Swarm.Acks.{ack_resolves_once}

-- The positive ack to the message of that id.
abbrev pub agreed : String → Ack
agreed key = record { command_id = key; result = true; payload = [] }

module _ (host : Host) (stream : WrappedStream) (queue : List WrappedStream) (id : String)
    (other : ℕ) (w : World) (t1 t2 i : Input) (rest : List Input) where
  -- The opener's world after the wake message, and after the message that names the session.
  abbrev pub woken : World
  woken =
      sent host stream wake_message t1 (t2 ∷ i ∷ rest) (stream_taken stream.remote_peer_id queue w)

  abbrev pub named : World
  named = sent host stream (set_session_message host id other) t2 (i ∷ rest) woken

  abbrev pub naming : Relay
  naming = with_id host (padded woken (set_session_message host id other))

  module _ (back : WrappedStream) (mine : ℕ) (o : Option Session) (alive : ℕ → Bool) (q : PeerId)
      (u : World) (arrival : Input) (more : List Input)
      (queued : w.shared.relay_out_streams ≡ stream ∷ queue) (next : w.inputs ≡ t1 ∷ t2 ∷ i ∷ rest)
      (ticks1 : t1.answer ≡ elapsed) (ticks2 : t2.answer ≡ elapsed)
      (answers : i.answer ≡ resolved (agreed naming.id))
      (kept : host.set_session_id_msg.decode
          (host.set_session_id_msg.encode (record { session_id = id; role = other }))
        ≡ some (record { session_id = id; role = other }))
      (decodes : host.relay.decode (host.relay.encode naming) ≡ some naming)
      (next' : u.inputs ≡ arrival ∷ more)
      (arrives : arrival.answer ≡ read_ok (host.relay.encode naming))
      (held : get (arrival.others u.shared).session_map id ≡ o)
      (not_answer : (other == role_i32 answer_role) ≡ false)
      (apart : is_entry_and_relay o (record { session_id = id; role = other }) ≡ false)
      (waits : alive named.shared.next_channel ≡ true) where
    -- A node opens a session to a peer whose stream is the first in the queue, in a role that is not the
    -- answer's. It wakes the stream, names the session on it, and waits with the id of that message in
    -- its event bus. The peer, which decodes the message, puts the stream into its session of that id,
    -- unless it is the session's entry and is named its relay, and answers with one ack to the id of
    -- the message. The opener's swarm gives that ack to the task that waits, which then starts to read
    -- the stream and puts it into its own session.
    pub sessions_meet :
        let opened = new_session_to_peer host stream.remote_peer_id id mine other w in
        let at_wait = awaiting naming.id named.shared in
        let v = heard u arrival more in
        (read_from_negotiated_arc host u ≡ (done (some naming), v))
        × ((on_relay host back none naming v).0 ≡ done (go_on (some id)))
        × (get (on_relay host back none naming v).1.shared.session_map id
            ≡ some (joined o id other back))
        × ((on_relay host back none naming v).1.out ≡ set_session_ack back naming.id ∷ u.out)
        × ((inject_ack_event alive (request_message q (agreed naming.id)) at_wait).0
            ≡ some (resolve named.shared.next_channel (agreed naming.id) ∷ []))
        × (opened.0 ≡ done (some stream))
        × (opened.1.seen ≡ at_wait ∷ named.seen)
        × (opened.1.out ≡ spawn_relay_handler stream (some id) ∷ named.out)
        × (get opened.1.shared.session_map id
            ≡ some (joined (get (i.others at_wait).session_map id) id mine stream))
    unfolding read_from_negotiated_arc wait_for expect on_relay on_set_session_id when ◌>>=◌
    sessions_meet =
        let msg : SetSessionIdMsg = record { session_id = id; role = other } in
        let joins =
          set_session_joins host msg back naming.id (heard u arrival more) o id held apart in
        let opens =
          new_session_opens host stream queue id mine other w t1 t2 i rest (agreed naming.id) queued
            next ticks1 ticks2 answers in
        (
          rw next' (rw arrives (rw decodes refl)),
          rw kept (rw not_answer (rw (joins.0) refl)),
          rw kept (rw not_answer (rw (joins.0) (joins.1 ∙ rw (==_refl id) refl))),
          rw kept (rw not_answer (rw (joins.0) joins.2)),
          (ack_resolves_once alive q q (agreed naming.id) named.shared waits).0,
          opens.0,
          opens.2,
          opens.1,
          opens.4,
        )
