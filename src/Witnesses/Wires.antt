-- ===== src/Witnesses/Wires.antt =====
-- Runs of what goes over the wire, and of identities.
use white_noise_rs.Prelude.{drop, ℕ, ◌≡◌, refl, some, List, [], ◌∷◌, ap, string_eq, arith, Option}
use white_noise_rs.Proto.{Relay, relaytype_i32, relay_data}
use white_noise_rs.State.{relay_role, new_shared}
use white_noise_rs.Task.{World, elapsed, read_ok, done}
use white_noise_rs.Utils.Framing.{deframe-frame_any}
use white_noise_rs.Utils.Payload.{frame, deframe}
use white_noise_rs.Utils.Forward.{forward_relay}
use white_noise_rs.Utils.Write.{read_from_negotiated_arc}
use white_noise_rs.Utils.Sending.{sent, write_relay_arc-carries, forward_relay_opposite}
use white_noise_rs.Utils.Ids.{from_bytes_get_id}
use white_noise_rs.Node.Streams.{scan}
use white_noise_rs.Node.Waiting.{Scanned, scan_first}
use white_noise_rs.HashMap.{insert, empty, get-insert}
use white_noise_rs.State.{CircuitConn}
use white_noise_rs.Task.{circuit_data}
use white_noise_rs.Connection.{read_circuit}
use white_noise_rs.Connection.Roundtrip.{send_message_read}
use white_noise_rs.Witnesses.Setting.{
  conn, host, stream_a, stream_b, stream_c, peer, full_open, node_with, quiet, world,
}

abbrev message : Relay
message = record {
  id = "";
  type = relaytype_i32 relay_data;
  payload = 40 ∷ 41 ∷ [];
  confusion = [];
}

deframe-frame_any_example : deframe (frame (40 ∷ 41 ∷ [])) ≡ some (40 ∷ 41 ∷ [])
deframe-frame_any_example = deframe-frame_any (40 ∷ 41 ∷ [])

abbrev forty : List ℕ
forty = 40 ∷ []

abbrev sender : World
sender = world new_shared (quiet elapsed ∷ [])

abbrev reader : World
reader = world new_shared (quiet (read_ok (2 ∷ 40 ∷ 41 ∷ [])) ∷ [])

write_relay_arc-carries_example :
    (read_from_negotiated_arc host reader).0 ≡ done (some (record message { confusion = [] }))
unfolding from_bytes_get_id
write_relay_arc-carries_example =
    (write_relay_arc-carries host stream_a message (quiet elapsed)
      (quiet (read_ok (2 ∷ 40 ∷ 41 ∷ []))) [] [] sender reader refl refl refl refl refl).4

abbrev between : World
between = world (node_with (full_open relay_role)) (quiet elapsed ∷ [])

forward_relay_opposite_example :
    (forward_relay host (full_open relay_role) "a" message between
      ≡ (done tt, sent host stream_b message (quiet elapsed) [] between))
    × (forward_relay host (full_open relay_role) "b" message between
        ≡ (done tt, sent host stream_a message (quiet elapsed) [] between))
    × (forward_relay host (full_open relay_role) "c" message between ≡ (done tt, between))
forward_relay_opposite_example =
    forward_relay_opposite host (full_open relay_role) stream_a stream_b "c" message between
      (quiet elapsed) [] refl refl refl refl refl refl refl

scan_first_example :
    Scanned
      (peer 2)
      (stream_a ∷ stream_b ∷ stream_c ∷ [])
      (scan 3 (peer 2) (stream_a ∷ stream_b ∷ stream_c ∷ []))
scan_first_example = scan_first (peer 2) (stream_a ∷ stream_b ∷ stream_c ∷ [])

abbrev seals : ℕ → List ℕ → Option (List ℕ)
seals state b = some (99 ∷ b)

abbrev opens : ℕ → List ℕ → Option (List ℕ)
opens state b = some (drop 1 b)

abbrev shaken : CircuitConn
shaken = record conn { transport_state = some 3 }

abbrev caller_node : World
caller_node =
    world (record new_shared { circuit_map = insert empty "s" shaken }) (quiet elapsed ∷ [])

abbrev answer_node : World
answer_node =
    world new_shared (quiet (circuit_data (some (frame (99 ∷ 0 ∷ 0 ∷ 0 ∷ 1 ∷ 40 ∷ [])))) ∷ [])

send_message_read_example :
    (read_circuit opens shaken (5 ∷ 6 ∷ 7 ∷ 8 ∷ 9 ∷ 6 ∷ []) answer_node).0
    ≡ done (40 ∷ [], 0 ∷ 0 ∷ 0 ∷ 1 ∷ 40 ∷ 6 ∷ [])
send_message_read_example =
    ap (λ r. r.0)
      (send_message_read host seals opens "s" shaken shaken 3 3 (40 ∷ []) (0 ∷ 0 ∷ 0 ∷ 1 ∷ 40 ∷ [])
        (5 ∷ 6 ∷ 7 ∷ 8 ∷ 9 ∷ 6 ∷ []) 99 caller_node answer_node (quiet elapsed)
        (quiet (circuit_data (some (frame (99 ∷ 0 ∷ 0 ∷ 0 ∷ 1 ∷ 40 ∷ []))))) [] []
        (get-insert empty "s" "s" shaken) refl refl (omega arith) (omega arith)
        (omega arith, (omega arith, (omega arith, (omega arith, (omega arith, (omega arith, tt))))))
        refl refl (omega arith) refl refl refl refl).1
