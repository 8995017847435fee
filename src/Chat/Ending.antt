-- ===== src/Chat/Ending.antt =====
-- whitenoise-client/src/main.rs: the fuel of the loops of a chat.
use white_noise_rs.Prelude.{
  ℕ, zero, suc, ◌<◌, ◌≡◌, ◌≢◌, refl, inl, inr, ◌⊎◌, String, true, is_some, Bool-cases, Option, none,
  some, List, [], ◌∷◌, length, arith, if◌then◌else◌, string_eq,
}
use white_noise_rs.Host.{Codec, Host}
use white_noise_rs.State.{WrappedStream, CircuitConn}
use white_noise_rs.Task.{
  Task, out_of_fuel, Input, World, done, spent, pure, await, as_typed, ◌>>=◌, ◌>>◌,
}
use white_noise_rs.Task.Consumes.{
  Consumes, Consumes-pure, Consumes-bind, Consumes-unwrap, Consumes-reads, inputs_left,
  consumes_rules, Consumes-await,
}
use white_noise_rs.Task.Ends.{
  Ends, Takes, Takes-bind, Takes-either, Takes-wait_for, Ends-take, Ends-bind, Ends-Consumes,
  bind-ends, Ends-if, Gives, Gives-bind, Gives-pure,
}
use white_noise_rs.Utils.Payload.{write_payload_arc}
use white_noise_rs.Utils.Write.{write_relay_arc}
use white_noise_rs.Proto.{Relay}
use white_noise_rs.Utils.Keeping.{write_relay_arc-Keeps}
use white_noise_rs.Invariant.Updates.{Fits}
use white_noise_rs.Client.{dial}
use white_noise_rs.Client.Calls.{dial-Keeps}
use white_noise_rs.Connection.{read_circuit, read_with, write_with, write_circuit, send_message}
use white_noise_rs.Sdk.{get_circuit}
use white_noise_rs.Chat.{
  ChatMessage, take_typed, typed_first, typed_line, shaken_circuit, send_line, show_next,
  chat_round, chat_loop, chat_on, empty_buf, caller,
}

none_left : (w : World) → inputs_left w < 0 → ⊥
none_left w h = omega arith

take_typed_takes :
    (t o : Option (List ℕ)) (i : Input) (is : List Input) (w : World)
    → w.inputs ≡ i ∷ is
    → (take_typed t w).0 ≡ done o
    → (inputs_left (take_typed t w).1 < inputs_left w) ⊎ (o ≡ none)
unfolding pure await ◌>>=◌
take_typed_takes none o i is w e d = inr cc
take_typed_takes (some line) o i is w e d = inl (rw e (omega arith))

-- A line that is typed takes its input.
first_takes :
    (is : List Input) (o : Option (List ℕ)) (w : World)
    → w.inputs ≡ is
    → (typed_first is w).0 ≡ done o
    → (inputs_left (typed_first is w).1 < inputs_left w) ⊎ (o ≡ none)
unfolding pure
first_takes [] o w e d = inr cc
first_takes (i ∷ is) o w e d = take_typed_takes (as_typed i.answer) o i is w e d

take_typed-Consumes : (t : Option (List ℕ)) → Consumes (take_typed t)
take_typed-Consumes none = Consumes-pure none
take_typed-Consumes (some line) = Consumes-bind _ _ Consumes-await (λ a. Consumes-pure (some line))

first-Consumes : (is : List Input) → Consumes (typed_first is)
first-Consumes [] = Consumes-pure none
first-Consumes (i ∷ is) = take_typed-Consumes (as_typed i.answer)

typed_line-Consumes : Consumes typed_line
unfolding typed_line
typed_line-Consumes = record {
  shrinks = λ w. (first-Consumes w.inputs).shrinks w;
  ends = λ w. (first-Consumes w.inputs).ends w;
}

module _ (id : String) where
  give_shaken :
      (conn : CircuitConn) (again : Task CircuitConn)
      → Gives (λ c. is_some c.transport_state ≡ true) again
      → Gives
          (λ c. is_some c.transport_state ≡ true)
          (if is_some conn.transport_state then pure conn else again)
  give_shaken conn again k = elim (Bool-cases (is_some conn.transport_state)) [
    | inl there ↦ rw there (Gives-pure conn there)
    | inr missing ↦ rw missing k
  ]

  shaken_circuit-Gives :
      (fuel : ℕ) → Gives (λ c. is_some c.transport_state ≡ true) (shaken_circuit fuel id)
  unfolding shaken_circuit out_of_fuel
  shaken_circuit-Gives zero = record { result = λ w a e. absurd cc }
  shaken_circuit-Gives (suc fuel) = Gives-bind _ _ (λ found.
      Gives-bind _ _ (λ c. give_shaken c _ (Gives-bind _ _ (λ _. shaken_circuit-Gives fuel))))

  shaken_circuit-Ends : (fuel : ℕ) → Ends fuel (shaken_circuit fuel id)
  unfolding shaken_circuit get_circuit
  shaken_circuit-Ends zero = record { within = λ w h. absurd (none_left w h) }
  shaken_circuit-Ends (suc fuel) = Ends-bind (suc fuel) _ _ (Consumes-reads _) (λ found.
      Ends-bind (suc fuel) _ _ (Consumes-unwrap found) (λ c.
        Ends-if (suc fuel) (is_some c.transport_state) _ _
          (Ends-Consumes (suc fuel) (Consumes-pure c))
          (Ends-take fuel _ _ (Takes-wait_for _) (λ _. shaken_circuit-Ends fuel))))

module _ (host : Host) (encrypts decrypts : ℕ → List ℕ → Option (List ℕ))
    (chat_message : Codec ChatMessage) where
  relay_written :
      (stream : WrappedStream) (relay : Relay) → Consumes (write_relay_arc host stream relay)
  relay_written stream relay = (write_relay_arc-Keeps host {P = Fits host 0} stream relay).consumes

  write_with-Consumes :
      (state : Option ℕ) (conn : CircuitConn) (payload : List ℕ)
      → Consumes (write_with host encrypts state conn payload)
  unfolding write_payload_arc
  write_with-Consumes none conn payload = Consumes-pure tt
  write_with-Consumes (some state) conn payload = search (consumes_rules, relay_written)

  send_line-Consumes :
      (nick id : String) (line : List ℕ)
      → Consumes (send_line host encrypts decrypts chat_message nick id line)
  unfolding send_line send_message write_circuit
  send_line-Consumes nick id line = search (consumes_rules, write_with-Consumes)

  read_with-Takes :
      (state : Option ℕ) (buf : List ℕ)
      → is_some state ≡ true
      → Takes (read_with decrypts state buf)
  read_with-Takes none buf shaken = absurd cc
  read_with-Takes (some state) buf shaken =
      Takes-bind _ _ (Takes-wait_for _) (λ received. search consumes_rules depth 14)

  module _ (conn : CircuitConn) (shaken : is_some conn.transport_state ≡ true)
      (nick id : String) where
    show_next-Takes :
        (buf : List ℕ) → Takes (show_next host encrypts decrypts chat_message conn buf)
    unfolding show_next read_circuit
    show_next-Takes buf =
        Takes-bind _ _ (read_with-Takes conn.transport_state buf shaken)
          (λ received. search consumes_rules)

    send_or_show-Consumes :
        (line : Option (List ℕ)) (buf : List ℕ)
        → Consumes {A = List ℕ} (elim line [
          | none ↦ show_next host encrypts decrypts chat_message conn buf
          | some text ↦ (do send_line host encrypts decrypts chat_message nick id text; pure buf)
        ])
    send_or_show-Consumes none buf = (show_next-Takes buf).consumes
    send_or_show-Consumes (some text) buf =
        Consumes-bind _ _ (send_line-Consumes nick id text) (λ _. Consumes-pure buf)

    chat_round-Takes :
        (buf : List ℕ) → Takes (chat_round host encrypts decrypts chat_message nick id conn buf)
    unfolding chat_round typed_line
    chat_round-Takes buf =
        Takes-either typed_line _ typed_line-Consumes (λ line. send_or_show-Consumes line buf)
          (λ w line e. elim (first_takes w.inputs line w refl e) [
            | inl took ↦ inl took
            | inr silent ↦ inr (rw silent (show_next-Takes buf))
          ])

    chat_loop-Ends :
        (fuel : ℕ) (buf : List ℕ)
        → Ends fuel (chat_loop host encrypts decrypts chat_message fuel nick id conn buf)
    unfolding chat_loop
    chat_loop-Ends zero buf = record { within = λ w h. absurd (none_left w h) }
    chat_loop-Ends (suc fuel) buf =
        Ends-take fuel _ _ (chat_round-Takes buf) (λ next. chat_loop-Ends fuel next)

  -- A chat never runs out of fuel: neither the loop on a circuit with a transport state, nor the
  -- whole task of a caller, whose circuit has a transport state by then.
  pub chats_end :
      (conn : CircuitConn) (nick id remote : String) (w : World)
      → is_some conn.transport_state ≡ true
      → ((chat_on host encrypts decrypts chat_message nick id conn w).0 ≢ spent)
        × ((caller host encrypts decrypts chat_message remote nick w).0 ≢ spent)
  unfolding caller
  chats_end conn nick id remote w shaken = (loop_ends conn shaken id w, caller_ends)
    where
      loop_ends :
          (c : CircuitConn)
          → is_some c.transport_state ≡ true
          → (i : String) (v : World)
          → (chat_on host encrypts decrypts chat_message nick i c v).0 ≢ spent
      loop_ends c there i v =
          (chat_loop-Ends c there nick i (suc (length v.inputs)) empty_buf).within v (omega arith)

      circuit : String → Task CircuitConn
      circuit i v = shaken_circuit (suc (length v.inputs)) i v

      caller_ends : (caller host encrypts decrypts chat_message remote nick w).0 ≢ spent
      caller_ends =
          bind-ends (dial host remote) _ w ((dial-Keeps host {floor = 0} remote).consumes.ends w)
            (λ i _.
              let v = (dial host remote w).1 in
              bind-ends (circuit i) _ v
                ((shaken_circuit-Ends i (suc (length v.inputs))).within v (omega arith))
                (λ c e.
                  loop_ends c ((shaken_circuit-Gives i (suc (length v.inputs))).result v c e) i
                    (circuit i v).1))
