-- ===== src/Cmd.antt =====
-- network/cmd_event_handler.rs: process_cmd_request, the task that makes this node the relay of a
-- circuit.
pub mod Answers
use white_noise_rs.Prelude.{
  ℕ, zero, suc, String, true, false, Option, none, some, [], length, as_bytes, ◌==◌, ℕ_eq,
  string_eq, if◌then◌else◌,
}
use white_noise_rs.HashMap.{get}
use white_noise_rs.Proto.{Command, SessionExpend, Ack, cmdtype_i32, session_ex_pend}
use white_noise_rs.Host.{Host, PeerId}
use white_noise_rs.State.{
  WrappedStream, Session, NodeCmdRequest, ack_request, role_i32, relay_role, sink_role, ready,
}
use white_noise_rs.Task.{Task, pure, unwrap, out_of_fuel, reads, next_commanded, ◌>>=◌, ◌>>◌}
use white_noise_rs.Utils.Write.{new_relay_circuit_success}
use white_noise_rs.Utils.Forward.{send_relay_twoway}
use white_noise_rs.Node.Sessions.{handle_close_session, new_session_to_peer}
use white_noise_rs.Node.Requests.{send_ack}
use white_noise_rs.Peers.{peer_of_text}

unfoldable pub ack_command : PeerId → Ack → Task (Unit {0})
ack_command peer ack =
    send_ack (ack_request (record { remote_peer_id = peer; ack_request = some ack }))

abbrev pub accepted : String → Ack
accepted command_id = record { command_id = command_id; result = true; payload = [] }

abbrev pub refused : String → String → Ack
refused command_id why = record { command_id = command_id; result = false; payload = as_bytes why }

module _ (host : Host) where
  abbrev pub answer_stream :
      Option WrappedStream → PeerId → String → SessionExpend → Task (Unit {0})
  answer_stream none peer command_id msg = do
    handle_close_session msg.session_id
    ack_command peer (refused command_id "new session error")
  answer_stream (some stream) peer command_id msg = ack_command peer (accepted command_id)

  abbrev pub expend_session : Option Session → PeerId → String → SessionExpend → Task (Unit {0})
  expend_session none peer command_id msg = do
    handle_close_session msg.session_id
    ack_command peer (refused command_id "No such session")
  expend_session (some session) peer command_id msg =
      if ready session
      then (do
        ack_command peer (accepted command_id)
        send_relay_twoway session (new_relay_circuit_success host msg.session_id))
      else (do
        sink_peer_id ← unwrap (peer_of_text host msg.peer_id)
        wraped_stream ←
            new_session_to_peer host sink_peer_id msg.session_id (role_i32 relay_role)
              (role_i32 sink_role)
        answer_stream wraped_stream peer command_id msg)

  unfoldable pub session_expend : PeerId → Command → Task (Unit {0})
  session_expend peer request = do
    msg ← unwrap (host.session_expend.decode request.payload)
    session ← reads (λ s. get s.session_map msg.session_id)
    expend_session session peer request.command_id msg

  unfoldable pub handle_cmd_request : NodeCmdRequest → Task (Unit {0})
  handle_cmd_request r = do
    request ← unwrap r.cmd_request
    if request.type == cmdtype_i32 session_ex_pend
        then session_expend r.remote_peer_id request
        else pure tt

  unfoldable pub cmd_loop : ℕ → Task (Unit {0})
  cmd_loop zero = out_of_fuel
  cmd_loop (suc fuel) = do
    cmd_request_option ← next_commanded
    elim cmd_request_option [ none ↦ pure tt | some r ↦ (do handle_cmd_request r; cmd_loop fuel) ]

  -- Each round takes an input at least, so a round more than there are inputs is enough.
  unfoldable pub process_cmd_request : Task (Unit {0})
  process_cmd_request w = cmd_loop (suc (length w.inputs)) w
