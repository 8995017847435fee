-- ===== src/Chat/Lines.antt =====
-- whitenoise-client/src/main.rs: a line that is typed at one end of a circuit is shown at the other.
use white_noise_rs.Prelude.{
  ℕ, ◌^◌, ◌<◌, ◌≤◌, ◌+◌, ◌≡◌, refl, Option, none, some, List, ◌∷◌, length, All, String, string_eq,
}
use white_noise_rs.HashMap.{get}
use white_noise_rs.Proto.{relaytype_i32, relay_data}
use white_noise_rs.Host.{Codec, Host}
use white_noise_rs.State.{CircuitConn}
use white_noise_rs.Task.{
  pure, await, Input, World, done, elapsed, typed, circuit_data, print_message, ◌>>=◌,
}
use white_noise_rs.Utils.Payload.{frame}
use white_noise_rs.Utils.Framing.{IsByte}
use white_noise_rs.Utils.Write.{new_relay}
use white_noise_rs.Utils.Sending.{sent}
use white_noise_rs.Connection.{filled}
use white_noise_rs.Connection.Roundtrip.{sized, heard, send_message_read}
use white_noise_rs.Chat.{
  ChatMessage, typed_first, chat_payload, typed_line, send_line, show_next, chat_round,
}

first_silent :
    (is more : List Input) (arrival : Input) (w : World) (m : Option (List ℕ))
    → is ≡ arrival ∷ more
    → arrival.answer ≡ circuit_data m
    → typed_first is w ≡ (done none, w)
unfolding pure
first_silent is more arrival w m e arrives = rw e (rw arrives refl)

first_types :
    (is more : List Input) (key : Input) (w : World) (line : List ℕ)
    → is ≡ key ∷ more
    → w.inputs ≡ key ∷ more
    → key.answer ≡ typed line
    → typed_first is w ≡ (done (some line), heard w key more)
unfolding pure await ◌>>=◌
first_types is more key w line e inputs types = rw e (rw types (rw inputs refl))

module _ (host : Host) (encrypts decrypts : ℕ → List ℕ → Option (List ℕ))
    (chat_message : Codec ChatMessage) (nick_name other_name id other_id : String) (line : List ℕ)
    (caller answer : CircuitConn) (state other : ℕ) (sealed buf other_buf encoded : List ℕ)
    (b c : ℕ) (w reader : World) (key tick arrival : Input) (rest more : List Input)
    (next : w.inputs ≡ key ∷ tick ∷ rest) (types : key.answer ≡ typed line)
    (ticks : tick.answer ≡ elapsed) (found : get (key.others w.shared).circuit_map id ≡ some caller)
    (shaken : caller.transport_state ≡ some state) (shaken' : answer.transport_state ≡ some other)
    (encodes : chat_message.encode (record { peer_id = nick_name; text = line }) ≡ c ∷ encoded)
    (decodes : chat_message.decode (c ∷ encoded)
      ≡ some (record { peer_id = nick_name; text = line }))
    (short : length (c ∷ encoded) < 2 ^ 32) (fits : length (b ∷ sealed) < 65536)
    (bytes : All IsByte (b ∷ sealed))
    (encrypted : encrypts state (sized (c ∷ encoded)) ≡ some (b ∷ sealed))
    (decrypted : decrypts other (b ∷ sealed) ≡ some (sized (c ∷ encoded)))
    (room : length (c ∷ encoded) + 4 ≤ length other_buf) (next' : reader.inputs ≡ arrival ∷ more)
    (arrives : arrival.answer ≡ circuit_data (some (frame (b ∷ sealed)))) where
  -- A line that is typed at one end of a circuit goes out in a message of its own, with the nick name, encrypted
  -- and framed as the data of a relay message of the circuit; and the other end of the circuit, where the frame
  -- arrives and is decrypted to what was encrypted, shows the line under that nick name. Neither round does
  -- anything else.
  pub chat_round_shows :
      let relay =
        new_relay (relaytype_i32 relay_data) (
          host.relay_msg.encode
            (record { session_id = caller.id; payload = frame (b ∷ sealed) })) in
      (chat_round host encrypts decrypts chat_message nick_name id caller buf w
        ≡ (done buf, sent host caller.out_stream relay tick rest (heard w key (tick ∷ rest))))
      × (chat_round host encrypts decrypts chat_message other_name other_id answer other_buf reader
          ≡ (
            done (filled (sized (c ∷ encoded)) other_buf),
            record (heard reader arrival more) { out = print_message nick_name line ∷ reader.out },
          ))
  unfolding chat_round typed_line send_line show_next chat_payload ◌>>=◌
  chat_round_shows =
      let (sends, reads) =
        send_message_read host encrypts decrypts id caller answer state other (c ∷ encoded) sealed
          other_buf b (heard w key (tick ∷ rest)) reader tick arrival rest more found shaken shaken'
          short fits bytes encrypted decrypted room refl ticks next' arrives in
      (
        rw (first_types w.inputs (tick ∷ rest) key w line next next types)
            (rw encodes (rw sends refl)),
        rw
            (first_silent reader.inputs more arrival reader (some (frame (b ∷ sealed))) next'
              arrives)
            (rw reads (rw decodes refl)),
      )
