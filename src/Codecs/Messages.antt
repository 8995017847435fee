-- ===== src/Codecs/Messages.antt =====
-- What is written as a request, or as a response, and what is read of it at the other end.
use white_noise_rs.Prelude.{
  ℕ, ◌≤◌, ◌<◌, ◌≡◌, refl, Bool, true, none, some, List, [], ◌∷◌, length, ltb, ℕ_eq, if◌then◌else◌,
  Bool-cases, inl, inr, arith,
}
use white_noise_rs.Host.{Codec}
use white_noise_rs.Host.{Host}
use white_noise_rs.Proto.{Ack, Command, Request}
use white_noise_rs.Codecs.{
  ack_codec, cmd_codec, proxy_codec, ok, invalid_data, Prefixed, Io, max_size, request_of,
  read_request, write_request, read_response, write_response,
}

-- The other end of a stream: what has been written arrives there.
abbrev pub other_end : Io → Io
other_end io = record { arrives = io.written; written = io.arrives; works = io.works }

-- Nothing, or more than 8 MiB.
abbrev pub improper : List ℕ → Bool
improper [] = true
improper (x ∷ b) = ltb max_size (length (x ∷ b))

module _ (prefixed : Prefixed)
    (limited : (b : List ℕ)
      → max_size < length b
      → prefixed.read_one max_size (prefixed.with_len_prefix b) ≡ none)
    (whole : (b : List ℕ)
      → length b ≤ max_size
      → prefixed.read_one max_size (prefixed.with_len_prefix b) ≡ some b) where
  request_of-prefixed :
      {A : Type 0} (codec : Codec A) (request : A) (b : List ℕ)
      → codec.decode b ≡ some request
      → request_of prefixed codec (prefixed.read_one max_size (prefixed.with_len_prefix b))
        ≡ (if improper b then invalid_data else ok request)
  request_of-prefixed codec request [] d = rw (whole [] (omega arith)) refl
  request_of-prefixed codec request (x ∷ b) d = elim (Bool-cases (ltb max_size (length (x ∷ b)))) [
    | inl long ↦ rw (limited (x ∷ b) (ground arith)) (rw long refl)
    | inr short ↦ rw (whole (x ∷ b) (ground arith)) (rw short (rw d refl))
  ]

  request-arrives :
      {A : Type 0} (codec : Codec A) (request : A) (io : Io)
      → io.works ≡ true
      → io.written ≡ []
      → codec.decode (codec.encode request) ≡ some request
      → let w = write_request prefixed codec request io in
        (w.0 ≡ ok tt)
        × (read_request prefixed codec (other_end w.1)
            ≡ (if improper (codec.encode request) then invalid_data else ok request))
  unfolding write_request read_request
  request-arrives codec request io works fresh d =
      rw works (rw fresh (refl, request_of-prefixed codec request (codec.encode request) d))

  -- An ack, a command and a request that are written by their codecs to fresh streams which take writes are
  -- read by the codecs at the other ends if their encodings have at least one byte and at most 8 MiB; if
  -- one is empty or longer, its writer gets no error and its reader an InvalidData error.
  pub requests_arrive :
      (host : Host) (ack : Ack) (command : Command) (request : Request) (io : Io)
      → io.works ≡ true
      → io.written ≡ []
      → host.ack.decode (host.ack.encode ack) ≡ some ack
      → host.command.decode (host.command.encode command) ≡ some command
      → host.request.decode (host.request.encode request) ≡ some request
      → let a = ack_codec prefixed host in
        let c = cmd_codec prefixed host in
        let p = proxy_codec prefixed host in
        let wa = a.writes_request ack io in
        let wc = c.writes_request command io in
        let wp = p.writes_request request io in
        ((wa.0 ≡ ok tt)
          × (a.reads_request (other_end wa.1)
              ≡ (if improper (host.ack.encode ack) then invalid_data else ok ack)))
        × ((wc.0 ≡ ok tt)
            × (c.reads_request (other_end wc.1)
                ≡ (if improper (host.command.encode command) then invalid_data else ok command)))
        × ((wp.0 ≡ ok tt)
            × (p.reads_request (other_end wp.1)
                ≡ (if improper (host.request.encode request) then invalid_data else ok request)))
  unfolding ack_codec cmd_codec proxy_codec
  requests_arrive host ack command request io works fresh da dc dp = (
    request-arrives host.ack ack io works fresh da,
    request-arrives host.command command io works fresh dc,
    request-arrives host.request request io works fresh dp,
  )

  -- A response that is written to a fresh stream which takes writes is read at its other end, the empty one
  -- too, unless it is longer than 8 MiB, which is an InvalidData error for the reader.
  pub responses_arrive :
      (payload : List ℕ) (io : Io)
      → io.works ≡ true
      → io.written ≡ []
      → let w = write_response prefixed payload io in
        (w.0 ≡ ok tt)
        × (read_response prefixed (other_end w.1)
            ≡ (if ltb max_size (length payload) then invalid_data else ok payload))
  unfolding write_response read_response
  responses_arrive payload io works fresh = rw works (
      rw fresh (
        refl,
        elim (Bool-cases (ltb max_size (length payload))) [
          | inl long ↦ rw (limited payload (ground arith)) (rw long refl)
          | inr short ↦ rw (whole payload (ground arith)) (rw short refl)
        ],
      ))
