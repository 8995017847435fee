-- ===== src/Host.antt =====
-- The libraries that the program calls, as a parameter: the hash, base58, libp2p's peer ids and keys,
-- prost's codecs for the messages of Proto, and the two ECIES schemes.
use white_noise_rs.Prelude.{
  ℕ, String, ◌≡◌, Bool, true, Option, none, some, List, Eq, ◌==◌, ◌↔◌, bytes_eq, arith,
  if◌then◌else◌,
}
use white_noise_rs.Proto.{
  Request, NewCircuit, NewProxy, Decrypt, NegPlaintext, MainNetPeers, PeersList, Command,
  SessionExpend, Ack, Negotiate, EncryptedNeg, Relay, SetSessionIdMsg, RelayMsg, ProbeSignal,
  Disconnect, CircuitSuccess,
}

-- prost's `encode` and `decode` of one message type; `none` is a DecodeError.
pub record Codec (A : Type 0) : Type 0 where
  pub encode : A → List ℕ
  pub decode : List ℕ → Option A

-- libp2p's PeerId: the bytes of its multihash.
pub record PeerId : Type 0 where
  pub bytes : List ℕ

abbrev pub peer_beq : PeerId → PeerId → Bool
peer_beq p q = p.bytes == q.bytes

pub peer_beq_iff : (p q : PeerId) → (peer_beq p q ≡ true) ↔ (p ≡ q)
peer_beq_iff p q = ground (arith, bytes_eq.agrees p.bytes q.bytes)

instance abbrev pub peer_eq : Eq PeerId
peer_eq = record { test = peer_beq; agrees = peer_beq_iff }

-- libp2p's identity::Keypair, each kind with its encoded public key and its secret bytes.
pub data Keypair : Type 0 where
  ed25519 secp256k1 rsa : List ℕ → List ℕ → Keypair

pub record Host : Type 0 where
  -- the 32 bytes of a SHA-256 digest, its multihash prefix cut off
  pub sha256 : List ℕ → List ℕ
  pub bs58_encode : List ℕ → String
  pub bs58_decode : String → Option (List ℕ)
  -- which bytes PeerId::from_bytes accepts
  pub valid_peer : List ℕ → Bool
  pub peer_of_keypair : Keypair → PeerId
  -- which texts parse as a Multiaddr
  pub valid_addr : String → Bool
  -- PeerId::random, from what the random generator gives
  pub random_peer : ℕ → PeerId
  -- the 64 bytes of a SHA-512 digest
  pub sha512 : List ℕ → List ℕ
  -- secp256k1::PublicKey::decode and encode_uncompressed: 65 bytes, the first a tag
  pub secp256k1_uncompressed : List ℕ → Option (List ℕ)
  -- the ECIES crates: key, then text; `none` is an error
  pub ecies_ed25519_encrypt : List ℕ → List ℕ → Option (List ℕ)
  pub ecies_ed25519_decrypt : List ℕ → List ℕ → Option (List ℕ)
  pub ecies_encrypt : List ℕ → List ℕ → Option (List ℕ)
  pub ecies_decrypt : List ℕ → List ℕ → Option (List ℕ)
  pub request : Codec Request
  pub new_circuit : Codec NewCircuit
  pub new_proxy : Codec NewProxy
  pub decrypt : Codec Decrypt
  pub neg_plaintext : Codec NegPlaintext
  pub main_net_peers : Codec MainNetPeers
  pub peers_list : Codec PeersList
  pub command : Codec Command
  pub session_expend : Codec SessionExpend
  pub ack : Codec Ack
  pub negotiate : Codec Negotiate
  pub encrypted_neg : Codec EncryptedNeg
  pub relay : Codec Relay
  pub set_session_id_msg : Codec SetSessionIdMsg
  pub relay_msg : Codec RelayMsg
  pub probe_signal : Codec ProbeSignal
  pub disconnect : Codec Disconnect
  pub circuit_success : Codec CircuitSuccess

module _ (host : Host) where
  -- PeerId::to_base58
  unfoldable pub to_base58 : PeerId → String
  to_base58 p = host.bs58_encode p.bytes

  -- PeerId::from_bytes; `none` is an error.
  unfoldable pub from_bytes : List ℕ → Option PeerId
  from_bytes b = if host.valid_peer b then some (record { bytes = b }) else none
