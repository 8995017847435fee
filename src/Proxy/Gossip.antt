-- ===== src/Proxy/Gossip.antt =====
-- network/proxy_event_handler.rs, as a client's node runs it: decrypting a gossip message for the access
-- node, and encrypting the negotiation for the entry node.
use white_noise_rs.Prelude.{
  ℕ, String, true, Option, none, some, List, [], ◌∷◌, ◌==◌, ℕ_eq, string_eq, if◌then◌else◌,
}
use white_noise_rs.HashMap.{get}
use white_noise_rs.Proto.{Request, Negotiate}
use white_noise_rs.Host.{Host, PeerId, Keypair, ed25519, secp256k1, rsa}
use white_noise_rs.Task.{Task, pure, unwrap, reads, asks, ◌>>=◌}
use white_noise_rs.Account
use white_noise_rs.Proxy.Registry.{answer}

module _ (host : Host) where
  abbrev pub decrypt_with : Keypair → List ℕ → Option (List ℕ)
  decrypt_with (ed25519 p s) cypher = Account.ecies_ed25519_decrypt host (ed25519 p s) cypher
  decrypt_with (secp256k1 p s) cypher = Account.ecies_decrypt host (secp256k1 p s) cypher
  decrypt_with (rsa p s) cypher = none

  -- Only a text that is a negotiation is answered.
  abbrev pub answer_plain : PeerId → String → List ℕ → Option Negotiate → Task (Unit {0})
  answer_plain peer req_id plain_text none = pure tt
  answer_plain peer req_id plain_text (some negotiate) =
      answer peer (record { command_id = req_id; result = true; payload = plain_text })

  unfoldable pub decrypt_gossip : PeerId → Request → Task (Unit {0})
  decrypt_gossip peer request = do
    msg ← unwrap (host.decrypt.decode request.payload)
    keypair ← asks (λ l. l.keypair)
    plain_text ← unwrap (decrypt_with keypair msg.cypher)
    answer_plain peer request.req_id plain_text (host.negotiate.decode plain_text)

  -- The first byte of a circuit task names the kind of the remote key.
  unfoldable pub encrypt_for : List ℕ → List ℕ → Option (List ℕ)
  unfolding Account.ecies_ed25519_encrypt Account.ecies_encrypt
  encrypt_for [] neg = none
  encrypt_for (kind ∷ key) neg =
      if kind == b'0'
      then Account.ecies_ed25519_encrypt host key neg
      else Account.ecies_encrypt host key neg

  unfoldable pub neg_plain_text : PeerId → Request → Task (Unit {0})
  neg_plain_text peer request = do
    msg ← unwrap (host.neg_plaintext.decode request.payload)
    found ← reads (λ s. get s.circuit_task msg.session_id)
    pub_bytes ← unwrap found
    crypted_text ← unwrap (encrypt_for pub_bytes msg.neg)
    answer peer (record { command_id = request.req_id; result = true; payload = crypted_text })
