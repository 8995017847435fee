-- ===== src/Peers.antt =====
-- The search for the next node of a circuit, which network/proxy_event_handler.rs does for a sink and
-- network/publish_event_handler.rs, in the same words, for a relay.
pub mod Picking
use white_noise_rs.Prelude.{
  ℕ, zero, suc, ◌+◌, ◌%◌, ◌^◌, String, Bool, true, false, not, ◌&&◌, Option, none, some, List,
  length, get_elem?, ◌==◌, string_eq, if◌then◌else◌,
}
use mathlib.Core.Option
use white_noise_rs.HashMap.{HashMap, get, insert, contains_key}
use white_noise_rs.Proto.{NodeInfo}
use white_noise_rs.Host.{Host, PeerId, to_base58, from_bytes}
use white_noise_rs.Task.{Task, pure, unwrap, reads, asks, draw, ◌>>=◌}
use white_noise_rs.Utils.Ids.{from_whitenoise_to_hash}
use white_noise_rs.Node.Sessions.{new_session_to_peer}
use white_noise_rs.Node.Requests.{get_id}

-- `index += 1; index %= nodeinfos.len()`, with the wrap-around of a usize.
abbrev pub next_index : ℕ → ℕ → ℕ
next_index index len = (index + 1) % 2 ^ 64 % len

module _ (host : Host) where
  unfoldable pub random_peer : Task PeerId
  random_peer = do d ← draw; pure (host.random_peer d)

  unfoldable pub peer_of_text : String → Option PeerId
  unfolding from_bytes
  peer_of_text id = Option.bind (host.bs58_decode id) (from_bytes host)

  abbrev pub or_random : Option PeerId → Task PeerId
  or_random none = random_peer
  or_random (some p) = pure p

  -- The second test: what the peer is registered with, if it is a client of this node.
  abbrev pub is_other_client : String → Option String → Task Bool
  is_other_client destination none = pure true
  is_other_client destination (some registered) = do
    hash ← unwrap (from_whitenoise_to_hash host registered)
    pure (not (hash == destination))

  -- The first test: not tried in vain before, and none of three nodes that take part already.
  abbrev pub is_fresh : HashMap String Bool → String → String → String → String → Bool
  is_fresh invalid own avoid bootstrap id =
      not (contains_key invalid id) && not (id == own) && not (id == avoid) && not (id == bootstrap)

  unfoldable pub is_candidate : HashMap String Bool → String → String → String → Task Bool
  is_candidate invalid avoid destination id = do
    boot_peer_id ← asks (λ l. l.boot_peer_id)
    bootstrap_peer_id ← or_random boot_peer_id
    own ← asks (get_id host)
    if is_fresh invalid own avoid (to_base58 host bootstrap_peer_id) id
        then (do
          registered ← reads (λ s. get s.client_peer_map id)
          is_other_client destination registered)
        else pure false

  module _ (nodeinfos : List NodeInfo) (avoid destination : String) where
    -- The inner loop, round the list from a random place; `current` stays if no node will do.
    unfoldable pub pick_peer : ℕ → HashMap String Bool → ℕ → PeerId → Task PeerId
    pick_peer zero invalid index current = pure current
    pick_peer (suc n) invalid index current = do
      info ← unwrap (get_elem? nodeinfos (next_index index (length nodeinfos)))
      fits ← is_candidate invalid avoid destination info.id
      elim fits [
        | true ↦ unwrap (peer_of_text info.id)
        | false ↦ pick_peer n invalid (next_index index (length nodeinfos)) current
      ]

    -- The outer loop: so many tries to open a session; the peer that it was opened to.
    unfoldable pub try_peers :
        ℕ → HashMap String Bool → PeerId → String → ℕ → ℕ → Task (Option PeerId)
    try_peers zero invalid current session_id my_role other_role = pure none
    try_peers (suc n) invalid current session_id my_role other_role = do
      index ← draw
      join ← pick_peer (length nodeinfos) invalid (index % 2 ^ 64) current
      wraped_stream_opt ← new_session_to_peer host join session_id my_role other_role
      elim wraped_stream_opt [
        | none ↦
            try_peers n (insert invalid (to_base58 host join) true) join session_id my_role
              other_role
        | some stream ↦ pure (some join)
      ]
