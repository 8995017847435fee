-- ===== src/Codecs.antt =====
-- network/protocols/ack_protocol.rs, cmd_protocol.rs and proxy_protocol.rs: how requests and responses go over a
-- stream of libp2p. The three files have the same text but for the message type.
pub mod Messages
use white_noise_rs.Prelude.{
  ℕ, ◌*◌, String, Bool, true, false, Option, none, some, List, [], ◌∷◌, ◌++◌, as_bytes,
  if◌then◌else◌,
}
use white_noise_rs.Proto.{Request, Command, Ack}
use white_noise_rs.Host.{Codec, Host}

-- `invalid_data` is an io::Error of that kind, `broken` one of the stream, and `panicked` an unwrap of a
-- message that does not decode.
pub data IoResult {ℓ} (A : Type ℓ) : Type ℓ where
  ok : A → IoResult A
  invalid_data broken panicked : IoResult A

-- libp2p's length-prefixed messages. `read_one` takes a limit and what has arrived on the stream; `none`
-- is a ReadOneError.
pub record Prefixed : Type 0 where
  pub with_len_prefix : List ℕ → List ℕ
  pub read_one : ℕ → List ℕ → Option (List ℕ)

-- A stream: what arrives on it, what has been written to it, and whether it takes writes.
pub record Io : Type 0 where
  pub arrives : List ℕ
  pub written : List ℕ
  pub works : Bool

abbrev pub max_size : ℕ
max_size = 8 * 1024 * 1024

module _ (prefixed : Prefixed) where
  abbrev pub write_with_len_prefix : List ℕ → Io → IoResult (Unit {0}) × Io
  write_with_len_prefix buf io =
      if io.works
      then (ok tt, record io { written = io.written ++ prefixed.with_len_prefix buf })
      else (broken, io)

  module _ {A : Type 0} (codec : Codec A) where
    abbrev pub decoded : Option A → IoResult A
    decoded none = panicked
    decoded (some request) = ok request

    abbrev pub request_of : Option (List ℕ) → IoResult A
    request_of none = invalid_data
    request_of (some []) = invalid_data
    request_of (some (b ∷ vec)) = decoded (codec.decode (b ∷ vec))

    unfoldable pub read_request : Io → IoResult A
    read_request io = request_of (prefixed.read_one max_size io.arrives)

    unfoldable pub write_request : A → Io → IoResult (Unit {0}) × Io
    write_request request io = write_with_len_prefix (codec.encode request) io

  abbrev pub response_of : Option (List ℕ) → IoResult (List ℕ)
  response_of none = invalid_data
  response_of (some vec) = ok vec

  unfoldable pub read_response : Io → IoResult (List ℕ)
  read_response io = response_of (prefixed.read_one max_size io.arrives)

  unfoldable pub write_response : List ℕ → Io → IoResult (Unit {0}) × Io
  write_response payload io = write_with_len_prefix payload io

-- libp2p's trait, with the name of the protocol.
pub record RequestResponseCodec (A : Type 0) : Type 0 where
  pub protocol_name : List ℕ
  pub reads_request : Io → IoResult A
  pub reads_response : Io → IoResult (List ℕ)
  pub writes_request : A → Io → IoResult (Unit {0}) × Io
  pub writes_response : List ℕ → Io → IoResult (Unit {0}) × Io

module _ (prefixed : Prefixed) (host : Host) where
  abbrev pub codec_of : {A : Type 0} → String → Codec A → RequestResponseCodec A
  codec_of name codec = record {
    protocol_name = as_bytes name;
    reads_request = read_request prefixed codec;
    reads_response = read_response prefixed;
    writes_request = write_request prefixed codec;
    writes_response = write_response prefixed;
  }

  unfoldable pub ack_codec : RequestResponseCodec Ack
  ack_codec = codec_of "/ack" host.ack

  unfoldable pub cmd_codec : RequestResponseCodec Command
  cmd_codec = codec_of "/cmd" host.command

  unfoldable pub proxy_codec : RequestResponseCodec Request
  proxy_codec = codec_of "/proxy" host.request
