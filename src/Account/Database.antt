-- ===== src/Account/Database.antt =====
-- account/account_service.rs: the keypair that a node keeps in its database. LevelDB is a map of byte strings
-- that is open and takes every write; `none` is a panic.
use white_noise_rs.Prelude.{
  ◌∷◌, ℕ, ◌+◌, ◌≡◌, refl, Option, none, some, List, [], ◌∷◌, ◌++◌, as_bytes, bytes_eq, false, ◌==◌,
  ==_refl, ◌∙◌,
}
use mathlib.Core.Option
use white_noise_rs.HashMap.{HashMap, get, insert, get-insert}
use white_noise_rs.Host.{Keypair, ed25519, secp256k1, rsa}
use white_noise_rs.Account.Keys.{KeyType, to_i32}

-- libp2p's identity::Keypair: generation from what the random generator gives, and the encodings.
pub record KeyCodec : Type 0 where
  pub generate_ed25519 : ℕ → List ℕ × List ℕ
  pub generate_secp256k1 : ℕ → List ℕ × List ℕ
  pub encode_ed25519 : List ℕ → List ℕ → List ℕ
  pub decode_ed25519 : List ℕ → Option (List ℕ × List ℕ)
  pub secp256k1_from_bytes : List ℕ → Option (List ℕ × List ℕ)

abbrev pub Db : Type 0
Db = HashMap (List ℕ) (List ℕ)

-- "default", and the number of the type in decimal
unfoldable pub db_key : KeyType → List ℕ
unfolding to_i32
db_key key_type = as_bytes "default" ++ (48 + to_i32 key_type) ∷ []

module _ (codec : KeyCodec) where
  abbrev pub generate : KeyType → ℕ → Keypair
  generate KeyType.ed25519 seed =
      ed25519 (codec.generate_ed25519 seed).0 (codec.generate_ed25519 seed).1
  generate KeyType.secp256k1 seed =
      secp256k1 (codec.generate_secp256k1 seed).0 (codec.generate_secp256k1 seed).1

  -- What is stored of a keypair.
  abbrev pub stored_bytes : Keypair → Option (List ℕ)
  stored_bytes (ed25519 public secret) = some (codec.encode_ed25519 public secret)
  stored_bytes (secp256k1 public secret) = some secret
  stored_bytes (rsa public secret) = none

  abbrev pub keypair_of : KeyType → List ℕ → Option Keypair
  keypair_of KeyType.ed25519 bytes = Option.map (λ k. ed25519 k.0 k.1) (codec.decode_ed25519 bytes)
  keypair_of KeyType.secp256k1 bytes =
      Option.map (λ k. secp256k1 k.0 k.1) (codec.secp256k1_from_bytes bytes)

  abbrev pub put_keypair : KeyType → Keypair → Option (List ℕ) → Db → Option (Keypair × Db)
  put_keypair key_type keypair none db = none
  put_keypair key_type keypair (some bytes) db = some (keypair, insert db (db_key key_type) bytes)

  abbrev pub found_or_new : KeyType → ℕ → Option (List ℕ) → Db → Option (Keypair × Db)
  found_or_new key_type seed none db =
      put_keypair key_type (generate key_type seed) (stored_bytes (generate key_type seed)) db
  found_or_new key_type seed (some bytes) db =
      Option.map (λ keypair. (keypair, db)) (keypair_of key_type bytes)

  unfoldable pub get_default_account_keypair : KeyType → ℕ → Db → Option (Keypair × Db)
  get_default_account_keypair key_type seed db =
      found_or_new key_type seed (get db (db_key key_type)) db

module _ (codec : KeyCodec)
    (ed25519_decodes : (seed : ℕ)
      → codec.decode_ed25519
          (codec.encode_ed25519 (codec.generate_ed25519 seed).0 (codec.generate_ed25519 seed).1)
        ≡ some (codec.generate_ed25519 seed))
    (secp256k1_decodes : (seed : ℕ)
      → codec.secp256k1_from_bytes (codec.generate_secp256k1 seed).1
        ≡ some (codec.generate_secp256k1 seed)) where
  abbrev generated_bytes : KeyType → ℕ → List ℕ
  generated_bytes KeyType.ed25519 seed =
      codec.encode_ed25519 (codec.generate_ed25519 seed).0 (codec.generate_ed25519 seed).1
  generated_bytes KeyType.secp256k1 seed = (codec.generate_secp256k1 seed).1

  start-new :
      (t : KeyType) (seed : ℕ) (db : Db)
      → get db (db_key t) ≡ none
      → get_default_account_keypair codec t seed db
        ≡ some (generate codec t seed, insert db (db_key t) (generated_bytes t seed))
  unfolding get_default_account_keypair
  start-new KeyType.ed25519 seed db fresh = rw fresh refl
  start-new KeyType.secp256k1 seed db fresh = rw fresh refl

  start-again :
      (t : KeyType) (seed again : ℕ) (db : Db)
      → get db (db_key t) ≡ some (generated_bytes t seed)
      → get_default_account_keypair codec t again db ≡ some (generate codec t seed, db)
  unfolding get_default_account_keypair
  start-again KeyType.ed25519 seed again db there = rw there (rw (ed25519_decodes seed) refl)
  start-again KeyType.secp256k1 seed again db there = rw there (rw (secp256k1_decodes seed) refl)

  first_db : KeyType → ℕ → Db → Db
  first_db t seed db = insert db (db_key t) (generated_bytes t seed)

  there :
      (t : KeyType) (seed : ℕ) (db : Db)
      → get (first_db t seed db) (db_key t) ≡ some (generated_bytes t seed)
  unfolding first_db
  there t seed db =
      get-insert db (db_key t) (db_key t) (generated_bytes t seed) ∙ rw (==_refl (db_key t)) refl

  abbrev Kept : KeyType → KeyType → ℕ → ℕ → ℕ → Db → Type 0
  Kept t between seed seed' again db =
      (first : Db) × (k : Keypair) × (second : Db) × (get_default_account_keypair codec t seed db
        ≡ some (generate codec t seed, first))
      × (get_default_account_keypair codec between seed' first ≡ some (k, second))
      × (get_default_account_keypair codec t again second ≡ some (generate codec t seed, second))

  same_type-Kept :
      (t : KeyType) (seed seed' again : ℕ) (db : Db)
      → get db (db_key t) ≡ none
      → Kept t t seed seed' again db
  unfolding first_db
  same_type-Kept t seed seed' again db fresh =
      let here = there t seed db in
      (
        first_db t seed db,
        generate codec t seed,
        first_db t seed db,
        start-new t seed db fresh,
        start-again t seed seed' _ here,
        start-again t seed again _ here,
      )

  other_type-Kept :
      (t u : KeyType) (seed seed' again : ℕ) (db : Db)
      → get db (db_key t) ≡ none
      → get db (db_key u) ≡ none
      → (db_key t == db_key u) ≡ false
      → (db_key u == db_key t) ≡ false
      → Kept t u seed seed' again db
  unfolding first_db
  other_type-Kept t u seed seed' again db fresh fresh' ne ne' =
      let first = first_db t seed db in
      let still : get first (db_key u) ≡ none =
        get-insert db (db_key t) (db_key u) (generated_bytes t seed) ∙ rw ne fresh' in
      let kept : get (first_db u seed' first) (db_key t) ≡ some (generated_bytes t seed) =
        get-insert first (db_key u) (db_key t) (generated_bytes u seed')
        ∙ rw ne' (there t seed db) in
      (
        first,
        generate codec u seed',
        first_db u seed' first,
        start-new t seed db fresh,
        start-new u seed' first still,
        start-again t seed again _ kept,
      )

  -- A node that starts with an empty database makes a keypair of its type and keeps it: after another start
  -- with the same type or with the other, it gets the same keypair again and writes nothing, whatever the
  -- random generator gives.
  pub keypair_kept :
      (t between : KeyType) (seed seed' again : ℕ) (db : Db)
      → ((u : KeyType) → get db (db_key u) ≡ none)
      → (first : Db) × (k : Keypair) × (second : Db) × (get_default_account_keypair codec t seed db
          ≡ some (generate codec t seed, first))
        × (get_default_account_keypair codec between seed' first ≡ some (k, second))
        × (get_default_account_keypair codec t again second ≡ some (generate codec t seed, second))
  unfolding db_key as_bytes
  keypair_kept KeyType.ed25519 KeyType.ed25519 seed seed' again db fresh =
      same_type-Kept KeyType.ed25519 seed seed' again db (fresh KeyType.ed25519)
  keypair_kept KeyType.secp256k1 KeyType.secp256k1 seed seed' again db fresh =
      same_type-Kept KeyType.secp256k1 seed seed' again db (fresh KeyType.secp256k1)
  keypair_kept KeyType.ed25519 KeyType.secp256k1 seed seed' again db fresh =
      other_type-Kept KeyType.ed25519 KeyType.secp256k1 seed seed' again db (fresh KeyType.ed25519)
        (fresh KeyType.secp256k1) refl refl
  keypair_kept KeyType.secp256k1 KeyType.ed25519 seed seed' again db fresh =
      other_type-Kept KeyType.secp256k1 KeyType.ed25519 seed seed' again db
        (fresh KeyType.secp256k1) (fresh KeyType.ed25519) refl refl
