-- ===== src/Chat.antt =====
-- whitenoise-client/src/main.rs: the chat client. The codec of its messages is a parameter, as are the noise
-- states of a circuit.
pub mod Ending
pub mod Refused
pub mod Travel
pub mod Lines
use white_noise_rs.Prelude.{
  ℕ, zero, suc, ◌%◌, String, Bool, Option, none, some, List, [], ◌∷◌, ◌++◌, length, is_some,
  get_elem?, string_eq, if◌then◌else◌,
}
use mathlib.Core.Option
use white_noise_rs.Host.{Codec, Host, PeerId, Keypair}
use white_noise_rs.State.{CircuitConn}
use white_noise_rs.Task.{
  Task, Input, print_message, as_typed, pure, unwrap, out_of_fuel, await, emit, draw, sleep, ◌>>=◌,
  ◌>>◌,
}
use white_noise_rs.Account.Keys.{KeyType, from_text_str}
use white_noise_rs.Client.{be_bytes, register_proxy, dial}
use white_noise_rs.Connection.{read_circuit, send_message}
use white_noise_rs.Sdk.{get_main_net_peers, get_circuit, notify_next_session}
use white_noise_rs.Sdk.Start.{Node, StartEffect, init}

-- `text` is the field `data`.
pub record ChatMessage : Type 0 where
  pub peer_id : String
  pub text : List ℕ

-- `put_u32(len as u32)`, and then one copy into the rest of a Vec::with_capacity(4 + len). With nothing left to
-- fill, `chunk_mut` makes room for more, and `copy_from_slice` panics: `none`.
unfoldable pub chat_payload : List ℕ → Option (List ℕ)
chat_payload [] = none
chat_payload (b ∷ encoded) = some (be_bytes 4 (length (b ∷ encoded)) ++ b ∷ encoded)

-- [0u8; BUF_LEN]
abbrev zeros : ℕ → List ℕ
zeros zero = []
zeros (suc n) = 0 ∷ zeros n

unfoldable pub empty_buf : List ℕ
empty_buf = zeros 65536

-- The first branch of `select!`, if a line is there.
abbrev pub take_typed : Option (List ℕ) → Task (Option (List ℕ))
take_typed none = pure none
take_typed (some line) = do await; pure (some line)

abbrev pub typed_first : List Input → Task (Option (List ℕ))
typed_first [] = pure none
typed_first (i ∷ is) = take_typed (as_typed i.answer)

unfoldable pub typed_line : Task (Option (List ℕ))
typed_line w = typed_first w.inputs w

-- The loop for a circuit whose handshake is going on.
unfoldable pub shaken_circuit : ℕ → String → Task CircuitConn
shaken_circuit zero session_id = out_of_fuel
shaken_circuit (suc fuel) session_id = do
  found ← get_circuit session_id
  cc ← unwrap found
  if is_some cc.transport_state then pure cc else (do sleep; shaken_circuit fuel session_id)

-- The node that is taken as the proxy: one of the list at random. `%` by the length of an empty list panics.
unfoldable pub choose : ℕ → List PeerId → Option PeerId
choose index [] = none
choose index (peer ∷ peers) = get_elem? (peer ∷ peers) (index % length (peer ∷ peers))

module _ (host : Host) (encrypts decrypts : ℕ → List ℕ → Option (List ℕ))
    (chat_message : Codec ChatMessage) where
  unfoldable pub send_line : String → String → List ℕ → Task (Unit {0})
  send_line nick_name session_id line = do
    payload ←
        unwrap (chat_payload (chat_message.encode (record { peer_id = nick_name; text = line })))
    send_message host encrypts session_id payload

  -- The buffer afterwards.
  unfoldable pub show_next : CircuitConn → List ℕ → Task (List ℕ)
  show_next circuit_conn buf = do
    received ← read_circuit decrypts circuit_conn buf
    message ← unwrap (chat_message.decode received.0)
    emit (print_message message.peer_id message.text)
    pure received.1

  -- A round of `select!`: a line that is typed is sent, and otherwise the circuit is read.
  unfoldable pub chat_round : String → String → CircuitConn → List ℕ → Task (List ℕ)
  chat_round nick_name session_id circuit_conn buf = do
    line ← typed_line
    elim line [
      | none ↦ show_next circuit_conn buf
      | some text ↦ (do send_line nick_name session_id text; pure buf)
    ]

  -- Both clients have the same loop, which runs for ever: the fuel bounds its rounds.
  unfoldable pub chat_loop : ℕ → String → String → CircuitConn → List ℕ → Task (Unit {0})
  chat_loop zero nick_name session_id circuit_conn buf = out_of_fuel
  chat_loop (suc fuel) nick_name session_id circuit_conn buf = do
    next ← chat_round nick_name session_id circuit_conn buf
    chat_loop fuel nick_name session_id circuit_conn next

  -- On a circuit with a transport state each round takes an input, so a round more than there are inputs is
  -- enough.
  abbrev pub chat_on : String → String → CircuitConn → Task (Unit {0})
  chat_on nick_name session_id circuit_conn w =
      chat_loop (suc (length w.inputs)) nick_name session_id circuit_conn empty_buf w

  unfoldable pub answer : String → Task (Unit {0})
  answer nick_name = do
    announced ← notify_next_session
    session_id ← unwrap announced
    found ← get_circuit session_id
    circuit_conn ← unwrap found
    chat_on nick_name session_id circuit_conn

  unfoldable pub caller : String → String → Task (Unit {0})
  caller remote_whitenoise_id nick_name = do
    session_id ← dial host remote_whitenoise_id
    circuit_conn ← λ w. shaken_circuit (suc (length w.inputs)) session_id w
    chat_on nick_name session_id circuit_conn

  unfoldable pub chat : Option String → String → Task (Unit {0})
  chat none nick_name = answer nick_name
  chat (some remote_whitenoise_id) nick_name = caller remote_whitenoise_id nick_name

  -- The answer to the registration is not looked at.
  unfoldable pub chat_through : PeerId → Option String → String → Task (Unit {0})
  chat_through proxy_remote_id remote_whitenoise_id_option nick_name = do
    register_proxy host proxy_remote_id
    chat remote_whitenoise_id_option nick_name

  -- start_client, after WhiteNoiseClient::init
  unfoldable pub run_client : String → PeerId → String → Option String → Task (Unit {0})
  run_client bootstrap_addr_str bootstrap_peer_id nick_name remote_whitenoise_id_option = do
    peer_list ← get_main_net_peers host bootstrap_addr_str bootstrap_peer_id 10
    index ← draw
    proxy_remote_id ← unwrap (choose index peer_list)
    chat_through proxy_remote_id remote_whitenoise_id_option nick_name

  -- What the client starts, and the task that it goes on with; `none` is a panic.
  unfoldable pub start_client :
      (KeyType → Option Keypair)
      → (String → Bool)
      → String
      → String
      → Option String
      → String
      → Option ((Node × List StartEffect) × Task (Unit {0}))
  start_client default_keypair listens bootstrap_addr_str nick_name remote_whitenoise_id_option
        key_type =
      Option.map
        (λ r. ((r.0, r.2), run_client bootstrap_addr_str r.1 nick_name remote_whitenoise_id_option))
        (init host default_keypair listens bootstrap_addr_str (from_text_str key_type) none)
