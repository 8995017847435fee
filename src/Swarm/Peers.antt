-- ===== src/Swarm/Peers.antt =====
-- network/whitenoise_behaviour.rs: which peers get_kad_peers returns.
use white_noise_rs.Prelude.{
  ℕ, zero, suc, ◌+◌, ◌^◌, ◌<◌, ◌≤◌, ◌≡◌, refl, Bool-cases, inl, inr, true, false, List, [], ◌∷◌,
  take, arith, if◌then◌else◌,
}
use white_noise_rs.Proto.{NodeInfo}
use white_noise_rs.Host.{Host}
use white_noise_rs.Swarm.{KadEntry, node_info, below, kad_loop, get_kad_peers}

-- The infos of all connected entries, in their order.
abbrev pub connected_infos : Host → List KadEntry → List NodeInfo
connected_infos host [] = []
connected_infos host (entry ∷ entries) =
    let rest = connected_infos host entries in
    if entry.connected then node_info host entry ∷ rest else rest

module _ (host : Host) (number : ℕ) (small : number < 2 ^ 31) where
  kad_loop-full :
      (cnt : ℕ) (entries : List KadEntry) → number ≤ cnt → kad_loop host number cnt entries ≡ []
  unfolding kad_loop
  kad_loop-full cnt [] h = refl
  kad_loop-full cnt (entry ∷ entries) h =
      let over : below cnt number ≡ false = ground arith in rw over (kad_loop-full cnt entries h)

  kad_loop-takes :
      (left cnt : ℕ) (entries : List KadEntry)
      → cnt + left ≡ number
      → kad_loop host number cnt entries ≡ take left (connected_infos host entries)
  unfolding kad_loop
  kad_loop-takes zero cnt entries e = kad_loop-full cnt entries (omega arith)
  kad_loop-takes (suc left) cnt [] e = refl
  kad_loop-takes (suc left) cnt (entry ∷ entries) e =
      let under : below cnt number ≡ true = ground arith in
      elim (Bool-cases entry.connected) [
        | inl up ↦ rw (under, up, kad_loop-takes left (suc cnt) entries (omega arith)) refl
        | inr down ↦ rw (under, down) (kad_loop-takes (suc left) cnt entries e)
      ]

-- For a number that an i32 holds without a sign, the node answers with that many of its connected peers,
-- the first of the routing table, or with all of them if there are fewer.
pub get_kad_peers-takes :
    (host : Host) (number : ℕ) (entries : List KadEntry)
    → number < 2 ^ 31
    → get_kad_peers host entries number ≡ take number (connected_infos host entries)
unfolding get_kad_peers
get_kad_peers-takes host number entries small =
    kad_loop-takes host number small number 0 entries (omega arith)
