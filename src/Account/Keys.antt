-- ===== src/Account/Keys.antt =====
-- account/key_types.rs.
use white_noise_rs.Prelude.{ℕ, String, ◌==◌, string_eq, ℕ_eq, if◌then◌else◌}

pub data KeyType : Type 0 where
  ed25519 secp256k1 : KeyType

unfoldable pub to_i32 : KeyType → ℕ
to_i32 ed25519 = 0
to_i32 _ = 1

unfoldable pub from_i32 : ℕ → KeyType
from_i32 index = if index == 0 then ed25519 else secp256k1

unfoldable pub from_text_str : String → KeyType
from_text_str key_type = if key_type == "ed25519" then ed25519 else secp256k1
