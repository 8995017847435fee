-- ===== src/Chat/Travel.antt =====
-- whitenoise-client/src/main.rs: a line that is typed at one end of a circuit, on its way through the nodes of the
-- circuit to the other end.
use mathlib.Core.Option
use white_noise_rs.Prelude.{
  ℕ, ◌^◌, ◌<◌, ◌≤◌, ◌+◌, ◌≡◌, true, Option, some, List, ◌∷◌, length, All, String, string_eq, ap,
  subst, sym, ◌∙◌,
}
use white_noise_rs.HashMap.{get}
use white_noise_rs.Proto.{Relay, RelayMsg, relaytype_i32, relay_data}
use white_noise_rs.Host.{Codec, Host}
use white_noise_rs.State.{WrappedStream, Session, CircuitConn}
use white_noise_rs.Task.{
  Input, World, Flow, done, elapsed, typed, circuit_data, circuit_send, print_message,
}
use white_noise_rs.Utils.Payload.{frame}
use white_noise_rs.Utils.Framing.{IsByte}
use white_noise_rs.Utils.Write.{new_relay, with_id}
use white_noise_rs.Utils.Sending.{padded}
use white_noise_rs.RelayEvents.Circuits.{handle_relay_msg}
use white_noise_rs.RelayEvents.Delivery.{is_end}
use white_noise_rs.Delivery.{
  Hop, IsBetween, KeepsPayload, carry, carry_delivers, newest_write, read_next, passes, Overhead,
  Passable,
}
use white_noise_rs.Connection.Roundtrip.{sized, heard}
use white_noise_rs.Chat.{ChatMessage, chat_round}
use white_noise_rs.Chat.Lines.{chat_round_shows}

module _ (host : Host) (encrypts decrypts : ℕ → List ℕ → Option (List ℕ))
    (chat_message : Codec ChatMessage) (nick_name other_name id other_id : String) (line : List ℕ)
    (caller answer : CircuitConn) (state other : ℕ) (sealed buf other_buf encoded : List ℕ)
    (b c : ℕ) (w reader last : World) (key tick arrival : Input) (rest more : List Input)
    (hops : List Hop) (end_stream : WrappedStream) (session : Session)
    (next : w.inputs ≡ key ∷ tick ∷ rest) (types : key.answer ≡ typed line)
    (ticks : tick.answer ≡ elapsed) (found : get (key.others w.shared).circuit_map id ≡ some caller)
    (own : caller.id ≡ id) (shaken : caller.transport_state ≡ some state)
    (shaken' : answer.transport_state ≡ some other)
    (encodes : chat_message.encode (record { peer_id = nick_name; text = line }) ≡ c ∷ encoded)
    (decodes : chat_message.decode (c ∷ encoded)
      ≡ some (record { peer_id = nick_name; text = line }))
    (short : length (c ∷ encoded) < 2 ^ 32) (fits : length (b ∷ sealed) < 65536)
    (bytes : All IsByte (b ∷ sealed))
    (encrypted : encrypts state (sized (c ∷ encoded)) ≡ some (b ∷ sealed))
    (decrypted : decrypts other (b ∷ sealed) ≡ some (sized (c ∷ encoded)))
    (room : length (c ∷ encoded) + 4 ≤ length other_buf) (overhead : ℕ)
    (keeps : KeepsPayload host id) (over : Overhead host id overhead)
    (passable : Passable host id overhead
      (host.relay_msg.encode (record { session_id = caller.id; payload = frame (b ∷ sealed) })))
    (kept : host.relay_msg.decode
        (host.relay_msg.encode (record { session_id = caller.id; payload = frame (b ∷ sealed) }))
      ≡ some (record { session_id = caller.id; payload = frame (b ∷ sealed) }))
    (between : All (IsBetween host id) hops)
    (at_end : get last.shared.session_map id ≡ some session) (ends : is_end session ≡ true)
    (circuit : get last.shared.circuit_map id ≡ some answer)
    (next' : reader.inputs ≡ arrival ∷ more)
    (arrives : arrival.answer ≡ circuit_data (some (frame (b ∷ sealed)))) where
  pub line_travels :
      (written : List ℕ) × (entered arrived : Relay) × (newest_write
          (chat_round host encrypts decrypts chat_message nick_name id caller buf w).1.out
        ≡ some written)
      × (read_next host id written ≡ some entered)
      × (carry host id hops entered ≡ some arrived)
      × (handle_relay_msg host arrived end_stream last ≡ (
        done tt,
        record last { out = circuit_send answer.channel (frame (b ∷ sealed)) ∷ last.out },
      ))
      × ((chat_round host encrypts decrypts chat_message other_name other_id answer other_buf
            reader).1.out
          ≡ print_message nick_name line ∷ reader.out)
  unfolding Option.bind
  line_travels =
      let msg : RelayMsg = record { session_id = caller.id; payload = frame (b ∷ sealed) } in
      let relay = new_relay (relaytype_i32 relay_data) (host.relay_msg.encode msg) in
      let (sends, shows) =
        chat_round_shows host encrypts decrypts chat_message nick_name other_name id other_id line
          caller answer state other sealed buf other_buf encoded b c w reader key tick arrival rest
          more next types ticks found shaken shaken' encodes decodes short fits bytes encrypted
          decrypted room next' arrives in
      let m = with_id host (padded (heard w key (tick ∷ rest)) relay) in
      let (entered, read, same_type, same_payload) = keeps m in
      let (arrived, carried, unchanged, delivered) =
        carry_delivers host id msg own hops entered end_stream last session answer overhead keeps
          over (subst (Passable host id overhead) (sym same_payload) passable) between
          (same_type, ap host.relay_msg.decode same_payload ∙ kept) at_end ends circuit in
      (
        host.relay.encode m,
        entered,
        arrived,
        ap (λ (r : Flow (List ℕ) × World). newest_write r.1.out) sends,
        rw (passes host id (heard w key (tick ∷ rest)) relay overhead over passable) read,
        carried,
        delivered,
        ap (λ (r : Flow (List ℕ) × World). r.1.out) shows,
      )
