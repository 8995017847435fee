-- ===== src/Witnesses/Chats.antt =====
-- The theorems of Chat at concrete inputs.
use white_noise_rs.Prelude.{
  ℕ, ◌≡◌, ◌≢◌, refl, false, Option, some, List, [], ◌∷◌, drop, arith, string_eq,
}
use white_noise_rs.HashMap.{empty, insert, get-insert}
use white_noise_rs.Proto.{Ack, Relay}
use white_noise_rs.Host.{Codec}
use white_noise_rs.State.{CircuitConn, new_shared, answer_role}
use white_noise_rs.Task.{
  World, elapsed, typed, circuit_data, resolved, print_message, panicked, spent, done, circuit_send,
}
use white_noise_rs.Utils.Payload.{frame}
use white_noise_rs.Account
use white_noise_rs.Chat.{ChatMessage, chat_round, chat_through, chat_on, caller}
use white_noise_rs.Chat.Travel.{line_travels}
use white_noise_rs.Delivery.{read_next, carry, newest_write}
use white_noise_rs.RelayEvents.Circuits.{handle_relay_msg}
use white_noise_rs.Witnesses.Circuits.{
  relay_hop, sink_hop, relay_hop-IsBetween, sink_hop-IsBetween, node_with-session,
}
use white_noise_rs.Chat.Ending.{chats_end}
use white_noise_rs.Chat.Refused.{refused_caller_panics}
use white_noise_rs.Witnesses.Setting.{
  host, peer, conn, quiet, world, stream_a, node_with, half_open,
}

abbrev seals : ℕ → List ℕ → Option (List ℕ)
seals state b = some (99 ∷ b)

abbrev opens : ℕ → List ℕ → Option (List ℕ)
opens state b = some (drop 1 b)

-- Every message is from Bob.
abbrev of_bob : Codec ChatMessage
of_bob = record {
  encode = λ m. 1 ∷ m.text;
  decode = λ b. some (record { peer_id = "Bob"; text = drop 1 b });
}

abbrev shaken : CircuitConn
shaken = record conn { transport_state = some 3 }

abbrev sealed_line : List ℕ
sealed_line = 0 ∷ 0 ∷ 0 ∷ 2 ∷ 1 ∷ 40 ∷ []

abbrev bob_types : World
bob_types =
    world (record new_shared { circuit_map = insert empty "s" shaken })
      (quiet (typed (40 ∷ [])) ∷ quiet elapsed ∷ [])

abbrev ann_reads : World
ann_reads = world new_shared (quiet (circuit_data (some (frame (99 ∷ sealed_line)))) ∷ [])

abbrev zero_buf : List ℕ
zero_buf = 0 ∷ 0 ∷ 0 ∷ 0 ∷ 0 ∷ 0 ∷ 0 ∷ 0 ∷ []

abbrev ann_node : World
ann_node =
    world (record (node_with (half_open answer_role)) { circuit_map = insert empty "s" shaken }) []

line_travels_example :
    (written : List ℕ) × (entered arrived : Relay) × (newest_write
        (chat_round host seals opens of_bob "Bob" "s" shaken [] bob_types).1.out
      ≡ some written)
    × (read_next host "s" written ≡ some entered)
    × (carry host "s" (relay_hop ∷ sink_hop ∷ []) entered ≡ some arrived)
    × (handle_relay_msg host arrived stream_a ann_node
        ≡ (done tt, record ann_node { out = circuit_send 0 (frame (99 ∷ sealed_line)) ∷ [] }))
    × ((chat_round host seals opens of_bob "Ann" "t" shaken zero_buf ann_reads).1.out
        ≡ print_message "Bob" (40 ∷ []) ∷ [])
unfolding frame
line_travels_example =
    line_travels host seals opens of_bob "Bob" "Ann" "s" "t" (40 ∷ []) shaken shaken 3 3 sealed_line
      [] zero_buf (40 ∷ []) 99 1 bob_types ann_reads ann_node (quiet (typed (40 ∷ [])))
      (quiet elapsed) (quiet (circuit_data (some (frame (99 ∷ sealed_line))))) [] []
      (relay_hop ∷ sink_hop ∷ []) stream_a (half_open answer_role) refl refl refl
      (get-insert empty "s" "s" shaken) refl refl refl refl refl (omega arith) (omega arith)
      (
        omega arith,
        (
          omega arith,
          (omega arith, (omega arith, (omega arith, (omega arith, (omega arith, tt))))),
        ),
      )
      refl refl (omega arith) 1 (λ r. (_, refl, refl, refl)) (λ r. (omega arith, omega arith))
      (omega arith) refl (relay_hop-IsBetween, (sink_hop-IsBetween, tt))
      (node_with-session (half_open answer_role)) refl (get-insert empty "s" "s" shaken) refl refl

chats_end_example :
    ((chat_on host seals opens of_bob "Bob" "s" shaken bob_types).0 ≢ spent)
    × ((caller host seals opens of_bob "0a" "Bob" bob_types).0 ≢ spent)
chats_end_example = chats_end host seals opens of_bob shaken "Bob" "s" "0a" bob_types refl

abbrev refusal : Ack
refusal = record { command_id = "k"; result = false; payload = [] }

abbrev turned_away : World
turned_away = world new_shared (quiet (resolved refusal) ∷ [])

refused_caller_panics_example :
    (chat_through host seals opens of_bob (peer 4) (some "0a") "Bob" turned_away).0 ≡ panicked
unfolding Account.from_keypair_to_whitenoise_id
refused_caller_panics_example =
    refused_caller_panics host seals opens of_bob (peer 4) "0" refusal (quiet (resolved refusal)) []
      "Bob" "0a" turned_away refl refl refl refl refl
