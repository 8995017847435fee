-- ===== src/Utils/ReadBack.antt =====
-- network/utils.rs: a payload that has been written is read at the other end.
use white_noise_rs.Prelude.{
  ℕ, zero, suc, String, ◌<◌, ◌≤◌, ◌≡◌, refl, ap, ◌∙◌, Bool-cases, inl, inr, false, Option, none,
  some, List, [], ◌∷◌, ◌++◌, length, leb, length-append, All, ◌==◌, ℕ_eq, arith, if◌then◌else◌,
}
use white_noise_rs.Proto.{Relay, relaytype_i32, relay_data}
use white_noise_rs.Host.{Host}
use white_noise_rs.State.{WrappedStream}
use white_noise_rs.Task.{
  Task, Flow, Answer, Input, World, done, panicked, elapsed, read_ok, read_err, wait_for, expect,
  unwrap, pure, panic, ◌>>=◌,
}
use white_noise_rs.Utils.Limit.{limited, limited-within, limited-over}
use white_noise_rs.Utils.Payload.{frame, frame_arc, write_payload_arc}
use white_noise_rs.Utils.Framing.{IsByte, deframe-frame}
use white_noise_rs.Utils.Write.{new_relay, with_id, read_from_negotiated_arc}
use white_noise_rs.Utils.Sending.{sent, padded, write_relay_arc-done}
use white_noise_rs.Utils.Substream.{read_payload, read_from_negotiated}
use white_noise_rs.Utils.Reading.{next_data, payload_of, read_payload_arc}
use white_noise_rs.Connection.Roundtrip.{heard}
use white_noise_rs.Swarm.Polling.{delivered, delivered-within, delivered-over}

-- The reader makes that of the input, and takes no other.
abbrev Gets : Task (Option Relay) → Input → Option Relay → Type 0
Gets reads i r =
    (w : World) (rest : List Input) → w.inputs ≡ i ∷ rest → reads w ≡ (done r, heard w i rest)

module _ (reads : Task (Option Relay)) where
  Gets-data :
      (i : Input) (rest : List Input) (m : Relay)
      → Gets reads i (some m)
      → m.type ≡ relaytype_i32 relay_data
      → (fuel : ℕ) (w : World) → w.inputs ≡ i ∷ rest
      → (next_data (suc fuel) reads w).0 ≡ done m
  unfolding next_data unwrap pure ◌>>=◌
  Gets-data i rest m gets is_data fuel w is = rw (gets w rest is, ◌>>=◌) (rw is_data refl)

  Gets-error :
      (i : Input) (rest : List Input)
      → Gets reads i none
      → (fuel : ℕ) (w : World) → w.inputs ≡ i ∷ rest
      → (next_data (suc fuel) reads w).0 ≡ panicked
  unfolding next_data unwrap panic ◌>>=◌
  Gets-error i rest gets fuel w is = rw (gets w rest is, ◌>>=◌) refl

  abbrev Skips : Input → Type 0
  Skips i = (r : Relay) × Gets reads i (some r) × ((r.type == relaytype_i32 relay_data) ≡ false)

  next_data-Skips :
      (tail : List Input) (result : Flow Relay)
      → ((fuel : ℕ) (w : World) → w.inputs ≡ tail → (next_data (suc fuel) reads w).0 ≡ result)
      → (skipped : List Input) (fuel : ℕ) (w : World) → All Skips skipped
      → w.inputs ≡ skipped ++ tail
      → length skipped < fuel
      → (next_data fuel reads w).0 ≡ result
  unfolding next_data unwrap pure ◌>>=◌
  next_data-Skips tail result last skipped zero w all is lt = absurd (omega arith)
  next_data-Skips tail result last [] (suc fuel) w all is lt = last fuel w is
  next_data-Skips tail result last (i ∷ skipped) (suc fuel) w all is lt =
      let (r, gets, other) = all.0 in
      rw (gets w (skipped ++ tail) is, ◌>>=◌)
        (rw other (
          next_data-Skips tail result last skipped fuel (heard w i (skipped ++ tail)) all.1 refl
            (omega arith)))

-- What a task that reads a stream gets for it from the stream's own task.
abbrev pub handed : Option (List ℕ) → Answer
handed none = read_err
handed (some msg) = read_ok msg

module _ (host : Host) where
  arc-Gets :
      (i : Input) (msg : List ℕ) (r : Relay)
      → i.answer ≡ read_ok msg
      → host.relay.decode msg ≡ some r
      → Gets (read_from_negotiated_arc host) i (some r)
  unfolding read_from_negotiated_arc wait_for expect unwrap pure ◌>>=◌
  arc-Gets i msg r a d w rest is = rw is (rw a (rw d refl))

  arc-Gets_error : (i : Input) → i.answer ≡ read_err → Gets (read_from_negotiated_arc host) i none
  unfolding read_from_negotiated_arc wait_for expect pure ◌>>=◌
  arc-Gets_error i a w rest is = rw is (rw a refl)

  substream-Gets :
      (i : Input) (msg : List ℕ) (r : Relay)
      → i.answer ≡ read_ok msg
      → limited msg ≡ some msg
      → host.relay.decode msg ≡ some r
      → Gets (read_from_negotiated host) i (some r)
  unfolding read_from_negotiated wait_for expect unwrap pure ◌>>=◌
  substream-Gets i msg r a l d w rest is = rw is (rw a (rw l (rw d refl)))

  substream-Gets_error :
      (i : Input) (msg : List ℕ)
      → i.answer ≡ read_ok msg
      → limited msg ≡ none
      → Gets (read_from_negotiated host) i none
  unfolding read_from_negotiated wait_for expect pure ◌>>=◌
  substream-Gets_error i msg a l w rest is = rw is (rw a (rw l refl))

  -- A message of another type than Data comes in, within the limit.
  abbrev pub Skipped : Input → Type 0
  Skipped i =
      (b : List ℕ) × (r : Relay) × (i.answer ≡ read_ok b)
      × (length b ≤ 4096)
      × (host.relay.decode b ≡ some r)
      × ((r.type == relaytype_i32 relay_data) ≡ false)

  arc-Skips : (l : List Input) → All Skipped l → All (Skips (read_from_negotiated_arc host)) l
  arc-Skips [] all = tt
  arc-Skips (i ∷ l) ((b, r, a, short, d, other), all) =
      ((r, arc-Gets i b r a d, other), arc-Skips l all)

  substream-Skips : (l : List Input) → All Skipped l → All (Skips (read_from_negotiated host)) l
  substream-Skips [] all = tt
  substream-Skips (i ∷ l) ((b, r, a, short, d, other), all) =
      ((r, substream-Gets i b r a (limited-within b short) d, other), substream-Skips l all)

module _ (host : Host) (stream : WrappedStream) (id : String) (buf : List ℕ) (b : ℕ) (w : World)
    (tick : Input) (rest skipped more : List Input) where
  -- The message of type Data that has the framed payload.
  abbrev pub carrier : Relay
  carrier =
      new_relay (relaytype_i32 relay_data)
        (host.relay_msg.encode (record { session_id = id; payload = frame (b ∷ buf) }))

  abbrev pub message : Relay
  message = with_id host (padded w carrier)

  -- The payload, unless the message that carries it is above the limit.
  abbrev pub payload_or_panic : Flow (List ℕ)
  payload_or_panic =
      if leb (length (host.relay.encode message)) 4096 then done (b ∷ buf) else panicked

  module _ (next : w.inputs ≡ tick ∷ rest) (ticks : tick.answer ≡ elapsed)
      (short : length (b ∷ buf) < 65536) (bytes : All IsByte (b ∷ buf))
      (kept : host.relay_msg.decode
          (host.relay_msg.encode (record { session_id = id; payload = frame (b ∷ buf) }))
        ≡ some (record { session_id = id; payload = frame (b ∷ buf) }))
      (decodes : host.relay.decode (host.relay.encode message) ≡ some message)
      (some_byte : 0 < length (host.relay.encode message))
      (skips : All (Skipped host) skipped) where
    abbrev payload_by : Task (Option Relay) → Task (List ℕ)
    payload_by reads = (λ v. next_data (suc (length v.inputs)) reads v) >>= payload_of host

    module _ (reads : Task (Option Relay)) (arrival : Input) (reader : World)
        (all : All (Skips reads) skipped) (is : reader.inputs ≡ skipped ++ arrival ∷ more) where
      read_by :
          (result : Flow Relay)
          → ((fuel : ℕ) (v : World)
              → v.inputs ≡ arrival ∷ more
              → (next_data (suc fuel) reads v).0 ≡ result)
          → (next_data (suc (length reader.inputs)) reads reader).0 ≡ result
      read_by result last =
          next_data-Skips reads (arrival ∷ more) result last skipped (suc (length reader.inputs))
            reader all is (rw is (omega (arith, length-append skipped (arrival ∷ more))))

      reads_whole : Gets reads arrival (some message) → (payload_by reads reader).0 ≡ done (b ∷ buf)
      unfolding unwrap ◌>>=◌
      reads_whole gets =
          rw (read_by (done message) (Gets-data reads arrival more message gets refl))
            (rw kept (rw (deframe-frame (b ∷ buf) short bytes).0 refl))

      reads_nothing : Gets reads arrival none → (payload_by reads reader).0 ≡ panicked
      unfolding ◌>>=◌
      reads_nothing gets = rw (read_by panicked (Gets-error reads arrival more gets)) refl

    module _ (reader substream_reader : World) (arrival raw_arrival : Input)
        (is : reader.inputs ≡ skipped ++ arrival ∷ more)
        (arrives : arrival.answer ≡ handed (delivered (host.relay.encode message)))
        (raw_is : substream_reader.inputs ≡ skipped ++ raw_arrival ∷ more)
        (raw_arrives : raw_arrival.answer ≡ read_ok (host.relay.encode message)) where
      -- A payload of one to 65535 bytes is written to a stream as one message of type Data. Where that
      -- message takes at most 4096 bytes, a task that reads a payload at the other end, by either reader,
      -- skips the messages of other types that come before it and gets the payload back whole, the codecs
      -- decoding what they have encoded; where it takes more, either reader panics.
      pub payload_read_back :
          (write_payload_arc host stream (b ∷ buf) id w
            ≡ (done tt, sent host stream carrier tick rest w))
          × ((read_payload_arc host reader).0 ≡ payload_or_panic)
          × ((read_payload host substream_reader).0 ≡ payload_or_panic)
      unfolding write_payload_arc frame_arc read_payload_arc read_payload ◌>>=◌
      payload_read_back =
          let sealed = host.relay.encode message in
          let arc = arc-Skips host skipped skips in
          let raw = substream-Skips host skipped skips in
          let writes : write_payload_arc host stream (b ∷ buf) id w
              ≡ (done tt, sent host stream carrier tick rest w) =
            rw (write_relay_arc-done host stream carrier tick rest w next ticks, ◌>>=◌) refl in
          elim (Bool-cases (leb (length sealed) 4096)) [
            | inl within ↦
                let fits : length sealed ≤ 4096 = ground arith in
                let e = delivered-within sealed some_byte fits in
                (
                  writes,
                  rw within (
                      reads_whole (read_from_negotiated_arc host) arrival reader arc is
                        (arc-Gets host arrival sealed message (arrives ∙ ap handed e) decodes)),
                  rw within (
                      reads_whole (read_from_negotiated host) raw_arrival substream_reader raw
                        raw_is
                        (substream-Gets host raw_arrival sealed message raw_arrives
                          (limited-within sealed fits) decodes)),
                )
            | inr over ↦
                let long : 4096 < length sealed = ground arith in
                let e = delivered-over sealed long in
                (
                  writes,
                  rw over (
                      reads_nothing (read_from_negotiated_arc host) arrival reader arc is
                        (arc-Gets_error host arrival (arrives ∙ ap handed e))),
                  rw over (
                      reads_nothing (read_from_negotiated host) raw_arrival substream_reader raw
                        raw_is
                        (substream-Gets_error host raw_arrival sealed raw_arrives
                          (limited-over sealed long))),
                )
          ]
