-- ===== src/Account/Identity.antt =====
-- account/account_service.rs and network/utils.rs: an identity and the hash that clients are known by.
use white_noise_rs.Prelude.{ℕ, String, ◌≡◌, refl, some, List, split_at_one}
use white_noise_rs.Host.{Host, Keypair, ed25519, secp256k1}
use white_noise_rs.Utils.Ids.{from_whitenoise_to_hash}
use white_noise_rs.Account.{from_keypair_to_whitenoise_id}

module _ (host : Host) (public secret : List ℕ)
    (decodes : host.bs58_decode (host.bs58_encode public) ≡ some public) where
  abbrev HashOf : Keypair → Type 0
  HashOf keypair =
      (id : String) × (from_keypair_to_whitenoise_id host keypair ≡ some id)
      × (from_whitenoise_to_hash host id ≡ some (host.bs58_encode (host.sha256 public)))

  -- The identity of a keypair of either kind leads to the hash of its public key, where base58 decodes what
  -- it encoded: the tag in front of the identity is cut off again.
  pub whitenoise_id_hashes : HashOf (ed25519 public secret) × HashOf (secp256k1 public secret)
  unfolding from_keypair_to_whitenoise_id from_whitenoise_to_hash split_at_one
  whitenoise_id_hashes = ((_, refl, rw decodes refl), (_, refl, rw decodes refl))
