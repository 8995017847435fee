-- ===== src/Utils/Limit.antt =====
-- network/utils.rs and network/protocols/relay_behaviour.rs: upgrade::read_one(stream, 4096) of libp2p, which both
-- kinds of stream are read with. A longer message is an error.
use white_noise_rs.Prelude.{
  ℕ, ◌≤◌, ◌<◌, ◌≡◌, refl, true, false, Option, none, some, List, length, leb, arith, if◌then◌else◌,
}

abbrev pub read_limit : ℕ
read_limit = 4096

unfoldable pub limited : List ℕ → Option (List ℕ)
limited msg = if leb (length msg) read_limit then some msg else none

pub limited-within : (msg : List ℕ) → length msg ≤ 4096 → limited msg ≡ some msg
unfolding limited
limited-within msg h = let e : leb (length msg) 4096 ≡ true = ground arith in rw e refl

pub limited-over : (msg : List ℕ) → 4096 < length msg → limited msg ≡ none
unfolding limited
limited-over msg h = let e : leb (length msg) 4096 ≡ false = ground arith in rw e refl
