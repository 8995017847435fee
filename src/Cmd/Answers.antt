-- ===== src/Cmd/Answers.antt =====
-- network/cmd_event_handler.rs: what a SessionExpend command is answered, where no session is opened.
use white_noise_rs.Prelude.{String, ◌≡◌, refl, Bool, true, Option, none, some, ◌∷◌, string_eq, ℕ_eq}
use white_noise_rs.HashMap.{get}
use white_noise_rs.Proto.{Ack, Command, SessionExpend, cmdtype_i32, session_ex_pend}
use white_noise_rs.Host.{Host, PeerId}
use white_noise_rs.State.{Session, ready, NodeCmdRequest, ack_request}
use white_noise_rs.Task.{Effect, World, done, node_request, ◌>>=◌}
use white_noise_rs.Utils.Write.{new_relay_circuit_success}
use white_noise_rs.Node.Closing.{closed, handle_close_session-done}
use white_noise_rs.Node.Requests.{send_ack}
use white_noise_rs.RelayEvents.Sink.{twoway_effects, send_relay_twoway-done}
use white_noise_rs.Cmd.{ack_command, accepted, refused, session_expend, handle_cmd_request}

-- There is nothing to extend: no session, or one that has both streams.
abbrev pub is_settled : Option Session → Bool
is_settled none = true
is_settled (some session) = ready session

abbrev pub ack_effect : PeerId → Ack → Effect
ack_effect peer ack =
    node_request (ack_request (record { remote_peer_id = peer; ack_request = some ack }))

abbrev pub settled : Host → PeerId → String → SessionExpend → Option Session → World → World
settled host peer command_id msg none w = record (closed msg.session_id w) {
  out = ack_effect peer (refused command_id "No such session") ∷ w.out;
}
settled host peer command_id msg (some session) w = record w {
  out =
      twoway_effects session (new_relay_circuit_success host msg.session_id)
        (ack_effect peer (accepted command_id) ∷ w.out);
}

module _ (host : Host) (r : NodeCmdRequest) (command : Command) (msg : SessionExpend) (w : World)
    (asked : r.cmd_request ≡ some command) (type : command.type ≡ cmdtype_i32 session_ex_pend)
    (decodes : host.session_expend.decode command.payload ≡ some msg) where
  -- A SessionExpend command for a session that the node does not have is refused, and the circuit and the
  -- probe of that id are gone. One for a session with both streams is accepted, then both its ends are
  -- told of the success, and the shared maps stay as they are.
  pub session_expend_answers :
      (o : Option Session)
      → get w.shared.session_map msg.session_id ≡ o
      → is_settled o ≡ true
      → handle_cmd_request host r w
        ≡ (done tt, settled host r.remote_peer_id command.command_id msg o w)
  unfolding handle_cmd_request session_expend ack_command send_ack ◌>>=◌
  session_expend_answers none found h = rw asked (
      rw type (
        rw decodes
          (rw found (rw (handle_close_session-done msg.session_id w, ◌>>=◌) (rw found refl)))))
  session_expend_answers (some session) found h = rw asked (
      rw type (
        rw decodes (
          rw found (
            rw h (
              send_relay_twoway-done session (new_relay_circuit_success host msg.session_id)
                (record w {
                  out = ack_effect r.remote_peer_id (accepted command.command_id) ∷ w.out;
                }))))))
