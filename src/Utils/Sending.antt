-- ===== src/Utils/Sending.antt =====
-- What a relay message carries when it is written to a stream, and where a node passes it on to.
use white_noise_rs.Prelude.{
  ap, List, some, ◌<◌, ◌*◌, ◌/◌, length, ◌==◌, string_eq, ==_refl, false, ℕ, zero, suc, ◌+◌, ◌≡◌,
  refl, [], ◌∷◌, arith, ◌%◌, String,
}
use white_noise_rs.Proto.{Relay, relaytype_i32, disconnected}
use white_noise_rs.Host.{Host}
use white_noise_rs.State.{Session, WrappedStream}
use white_noise_rs.Task.{
  Flow, Input, World, done, stream_write, timer, elapsed, read_ok, wait_for, expect, ◌>>=◌,
}
use white_noise_rs.Utils.Confusion.{
  confusion_bound, gen_range, fill_bytes, confusion_relay, random_jitter_duration, jitter,
  jitter_max_micros,
}
use white_noise_rs.Utils.Ids.{from_bytes_get_id}
use white_noise_rs.Utils.Forward.{forward_relay}
use white_noise_rs.Utils.Write.{
  read_from_negotiated_arc, with_id, write_relay_arc, new_relay, write_disconnect_arc,
}

-- The random bytes that `fill_bytes` draws, and the world behind it.
abbrev pub random_bytes : (ℕ → ℕ) → ℕ → ℕ → List ℕ
random_bytes entropy zero drawn = []
random_bytes entropy (suc n) drawn = (entropy drawn % 256) ∷ random_bytes entropy n (suc drawn)

length-random_bytes : (entropy : ℕ → ℕ) (n drawn : ℕ) → length (random_bytes entropy n drawn) ≡ n
length-random_bytes entropy zero drawn = refl
length-random_bytes entropy (suc n) drawn = ap suc (length-random_bytes entropy n (suc drawn))

fill_bytes-done :
    (n : ℕ) (w : World)
    → fill_bytes n w ≡ (done (random_bytes w.entropy n w.drawn), record w { drawn = w.drawn + n })
unfolding fill_bytes ◌>>=◌
fill_bytes-done zero w = ground arith
fill_bytes-done (suc n) w =
    let e : suc w.drawn + n ≡ w.drawn + suc n = omega arith in
    rw (fill_bytes-done n (record w { drawn = suc w.drawn }), ◌>>=◌) (rw e refl)

-- The message with its random padding, and the number that is drawn for the delay after it.
abbrev pub padded : World → Relay → Relay
padded w relay = record relay {
  confusion = random_bytes w.entropy (w.entropy w.drawn % confusion_bound relay) (suc w.drawn);
}

abbrev pub after_padding : World → Relay → ℕ
after_padding w relay = suc w.drawn + w.entropy w.drawn % confusion_bound relay

confusion_relay-done :
    (relay : Relay) (w : World)
    → confusion_relay relay w ≡ (done (padded w relay), record w { drawn = after_padding w relay })
unfolding confusion_relay gen_range ◌>>=◌
confusion_relay-done relay w =
    rw
      (
        fill_bytes-done (w.entropy w.drawn % confusion_bound relay)
            (record w { drawn = suc w.drawn }),
        ◌>>=◌,
      )
      refl

pub length-padded :
    (w : World) (relay : Relay)
    → length (padded w relay).confusion < length relay.payload * 10 / 100 + 10
length-padded w relay =
    omega (
      arith,
      length-random_bytes w.entropy (w.entropy w.drawn % confusion_bound relay) (suc w.drawn),
    )

-- The world after a message has gone out: one input is taken for the delay.
module _ (host : Host) (stream : WrappedStream) (relay : Relay) (tick : Input)
    (rest : List Input) where
  abbrev pub sent : World → World
  sent w = record w {
    shared = tick.others w.shared;
    out =
        stream_write stream (host.relay.encode (with_id host (padded w relay)))
        ∷ timer (w.entropy (after_padding w relay) % jitter_max_micros)
        ∷ w.out;
    inputs = rest;
    drawn = suc (after_padding w relay);
    seen = w.shared ∷ w.seen;
  }

  pub write_relay_arc-done :
      (w : World)
      → w.inputs ≡ tick ∷ rest
      → tick.answer ≡ elapsed
      → write_relay_arc host stream relay w ≡ (done (with_id host (padded w relay)).id, sent w)
  unfolding write_relay_arc jitter random_jitter_duration gen_range wait_for expect ◌>>=◌
  write_relay_arc-done w e a = rw (confusion_relay-done relay w, ◌>>=◌) (ground arith)

-- The message that tells the other end of a stream that a session is over.
abbrev pub farewell : Host → String → Relay
farewell host id =
    new_relay (relaytype_i32 disconnected)
      (host.disconnect.encode (record { session_id = id; err_code = 0 }))

pub write_disconnect_arc-done :
    (host : Host) (stream : WrappedStream) (id : String) (tick : Input) (rest : List Input)
    (w : World)
    → w.inputs ≡ tick ∷ rest
    → tick.answer ≡ elapsed
    → write_disconnect_arc host stream id w
      ≡ (done tt, sent host stream (farewell host id) tick rest w)
unfolding write_disconnect_arc ◌>>=◌
write_disconnect_arc-done host stream id tick rest w e a =
    rw (write_relay_arc-done host stream (farewell host id) tick rest w e a, ◌>>=◌) refl

-- A message that is written is the newest effect, behind a timer of less than 30 microseconds; it has
-- the type and the payload that it was given, the hash of its own encoding with the old id as its id,
-- which is returned, and less padding than a tenth of the payload and ten bytes. Where the codec decodes
-- that message, the task that reads the bytes at the other end gets it back.
pub write_relay_arc-carries :
    (host : Host) (stream : WrappedStream) (relay : Relay) (tick arrival : Input)
    (rest others : List Input) (w reader : World)
    → w.inputs ≡ tick ∷ rest
    → tick.answer ≡ elapsed
    → let m = with_id host (padded w relay) in
      let bytes = host.relay.encode m in
      host.relay.decode bytes ≡ some m
      → reader.inputs ≡ arrival ∷ others
      → arrival.answer ≡ read_ok bytes
      → (delay : ℕ) × ((write_relay_arc host stream relay w).1.out
          ≡ stream_write stream bytes ∷ timer delay ∷ w.out)
        × (delay < 30)
        × ((write_relay_arc host stream relay w).0 ≡ done m.id)
        × ((read_from_negotiated_arc host reader).0 ≡ done (some m))
        × (m.type ≡ relay.type)
        × (m.payload ≡ relay.payload)
        × (m.id ≡ from_bytes_get_id host (host.relay.encode (record m { id = relay.id })))
        × (length m.confusion < length relay.payload * 10 / 100 + 10)
unfolding read_from_negotiated_arc wait_for expect ◌>>=◌
write_relay_arc-carries host stream relay tick arrival rest others w reader e a decodes next bytes =
    let run = write_relay_arc-done host stream relay tick rest w e a in
    (
      w.entropy (after_padding w relay) % jitter_max_micros,
      ap (λ (r : Flow String × World). r.1.out) run,
      omega arith,
      ap (λ (r : Flow String × World). r.0) run,
      rw next (rw bytes (rw decodes refl)),
      refl,
      refl,
      refl,
      length-padded w relay,
    )

module _ (host : Host) (session : Session) (e l : WrappedStream) (relay : Relay) (w : World)
    (tick : Input) (rest : List Input) (early : session.early_stream ≡ some e)
    (later : session.later_stream ≡ some l) (distinct : (e.stream_id == l.stream_id) ≡ false)
    (next : w.inputs ≡ tick ∷ rest) (ticks : tick.answer ≡ elapsed) where
  pub forward_relay_from_early :
      forward_relay host session e.stream_id relay w ≡ (done tt, sent host l relay tick rest w)
  unfolding forward_relay ◌>>=◌
  forward_relay_from_early =
      ground (arith, ==_refl e.stream_id, write_relay_arc-done host l relay tick rest w next ticks)

  pub forward_relay_from_later :
      forward_relay host session l.stream_id relay w ≡ (done tt, sent host e relay tick rest w)
  unfolding forward_relay ◌>>=◌
  forward_relay_from_later =
      ground (arith, ==_refl l.stream_id, write_relay_arc-done host e relay tick rest w next ticks)

module _ (host : Host) (session : Session) (e l : WrappedStream) (other : String) (relay : Relay)
    (w : World) (tick : Input) (rest : List Input) (early : session.early_stream ≡ some e)
    (later : session.later_stream ≡ some l) (distinct : (e.stream_id == l.stream_id) ≡ false)
    (not_early : (e.stream_id == other) ≡ false) (not_later : (l.stream_id == other) ≡ false)
    (next : w.inputs ≡ tick ∷ rest) (ticks : tick.answer ≡ elapsed) where
  -- In a session with two streams, a message from one goes out on the other, and a message from a
  -- stream that is neither goes nowhere.
  pub forward_relay_opposite :
      (forward_relay host session e.stream_id relay w ≡ (done tt, sent host l relay tick rest w))
      × (forward_relay host session l.stream_id relay w ≡ (done tt, sent host e relay tick rest w))
      × (forward_relay host session other relay w ≡ (done tt, w))
  unfolding forward_relay ◌>>=◌
  forward_relay_opposite = (
    forward_relay_from_early host session e l relay w tick rest early later distinct next ticks,
    forward_relay_from_later host session e l relay w tick rest early later distinct next ticks,
    ground arith,
  )
