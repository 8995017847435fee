-- ===== src/Utils/Ids.antt =====
-- network/utils.rs: ids from hashes.
use white_noise_rs.Prelude.{ℕ, String, Option, none, some, List, split_at_one}
use mathlib.Core.Option
use white_noise_rs.Proto.{Request}
use white_noise_rs.Host.{Host}

module _ (host : Host) where
  unfoldable pub from_bytes_get_id : List ℕ → String
  from_bytes_get_id buf = host.bs58_encode (host.sha256 buf)

  unfoldable pub from_request_get_id : Request → String
  unfolding from_bytes_get_id
  from_request_get_id request = from_bytes_get_id (host.request.encode request)

  abbrev pub hash_of_pub : Option (ℕ × String) → Option String
  hash_of_pub none = none
  hash_of_pub (some (index, pub_bytes)) =
      Option.map (λ b. host.bs58_encode (host.sha256 b)) (host.bs58_decode pub_bytes)

  -- `none` is the panic of `split_at` or of `unwrap`.
  unfoldable pub from_whitenoise_to_hash : String → Option String
  from_whitenoise_to_hash whitenoise_id = hash_of_pub (split_at_one whitenoise_id)
