-- ===== src/Account.antt =====
-- account/account_service.rs and account/key_types.rs: identities and the two ECIES schemes. `none` is
-- a panic.
pub mod Keys
pub mod Identity
pub mod Database
use Prim.Native.Nat.{bit_and, bit_or}
use white_noise_rs.Prelude.{
  ℕ, zero, suc, String, Char, Option, none, some, List, [], ◌∷◌, ◌==◌, string_eq, ℕ_eq, take, drop,
  if◌then◌else◌,
}
use mathlib.Core.Option
use white_noise_rs.Host.{Host, Keypair, ed25519, secp256k1, rsa}

-- The bytes of a secret key that ecies_ed25519_decrypt sets before use.
abbrev pub set_low : ℕ → ℕ
set_low b = bit_and b 248

abbrev pub set_high : ℕ → ℕ
set_high b = bit_or (bit_and b 63) 64

abbrev pub set_high_again : ℕ → ℕ
set_high_again b = bit_or (bit_and b 127) 64

-- lower[0] and lower[31], each set twice.
unfoldable pub clamp_low : ℕ → ℕ
clamp_low b = set_low (set_low b)

unfoldable pub clamp_high : ℕ → ℕ
clamp_high b = set_high_again (set_high b)

abbrev pub update_at : ℕ → (ℕ → ℕ) → List ℕ → List ℕ
update_at i f [] = []
update_at zero f (x ∷ xs) = f x ∷ xs
update_at (suc i) f (x ∷ xs) = x ∷ update_at i f xs

unfoldable pub clamp : List ℕ → List ℕ
unfolding clamp_low clamp_high
clamp lower = update_at 31 clamp_high (update_at 0 clamp_low lower)

module _ (host : Host) where
  unfoldable pub from_keypair_to_whitenoise_id : Keypair → Option String
  from_keypair_to_whitenoise_id (ed25519 public secret) =
      some (String.◌∷◌ "0" (host.bs58_encode public))
  from_keypair_to_whitenoise_id (secp256k1 public secret) =
      some (String.◌∷◌ "1" (host.bs58_encode public))
  from_keypair_to_whitenoise_id (rsa public secret) = none

  unfoldable pub from_keypair_to_secretkey_bytes : Keypair → Option (List ℕ)
  from_keypair_to_secretkey_bytes (secp256k1 public secret) = some secret
  from_keypair_to_secretkey_bytes _ = none

  unfoldable pub ecies_encrypt : List ℕ → List ℕ → Option (List ℕ)
  ecies_encrypt pub_bytes plain =
      Option.bind (host.secp256k1_uncompressed pub_bytes)
        (λ serialized. host.ecies_encrypt (take 64 (drop 1 serialized)) plain)

  unfoldable pub ecies_ed25519_encrypt : List ℕ → List ℕ → Option (List ℕ)
  ecies_ed25519_encrypt pub_bytes plain = host.ecies_ed25519_encrypt pub_bytes plain

  unfoldable pub ecies_decrypt : Keypair → List ℕ → Option (List ℕ)
  unfolding from_keypair_to_secretkey_bytes
  ecies_decrypt keypair encrypted =
      Option.bind (from_keypair_to_secretkey_bytes keypair)
        (λ secret. host.ecies_decrypt secret encrypted)

  unfoldable pub ecies_ed25519_decrypt : Keypair → List ℕ → Option (List ℕ)
  unfolding clamp
  ecies_ed25519_decrypt (ed25519 public secret) encrypted =
      host.ecies_ed25519_decrypt (clamp (take 32 (host.sha512 secret))) encrypted
  ecies_ed25519_decrypt _ encrypted = none
