-- ===== src/Sdk/Starting.antt =====
-- sdk/host.rs and sdk/client.rs: a client and a server that start with a bootstrap address.
use white_noise_rs.Prelude.{ℕ, String, Bool, true, false, ◌≡◌, refl, Option, some, List, [], ◌∷◌}
use mathlib.Core.Option
use white_noise_rs.Host.{Host, PeerId, Keypair, ed25519}
use white_noise_rs.Swarm.{has_p2p}
use white_noise_rs.Account.{from_keypair_to_whitenoise_id}
use white_noise_rs.Account.Keys.{KeyType}
use white_noise_rs.Sdk.Bootstrap.{join, has_slash, bootstrap_address}
use white_noise_rs.Sdk.Start.{
  add_address, get_closest_peers, listen_on, spawns, publish_requests, proxy_requests, cmd_requests,
  client_event_loop, server_event_loop, new_streams, new_sessions, new_node, start_server, init,
}

module _ (host : Host) (default_keypair : KeyType → Option Keypair) (listens : String → Bool)
    (a id port key_type : String) (t : KeyType) (bytes public secret : List ℕ)
    (plain : has_p2p a ≡ false) (whole : has_slash id ≡ false)
    (decodes : host.bs58_decode id ≡ some bytes) (valid : host.valid_peer bytes ≡ true)
    (parses : host.valid_addr a ≡ true)
    (parses' : host.valid_addr (join a (join "/p2p/" id)) ≡ true)
    (free : listens (join "/ip4/0.0.0.0/tcp/" port) ≡ true) where
  -- With a bootstrap address `a/p2p/id` that parses, and with an ed25519 keypair, a client and a server start without
  -- a panic, with empty maps, no proxy, and the peer of the address as their bootstrap peer. The client runs
  -- an event loop, the tasks for requests and commands and the two loops of the sdk. The server searches
  -- the network, listens on its port, and runs the publish task, its own event loop, the tasks for
  -- requests and commands and the loop for new streams.
  pub nodes_start :
      let addr = join a (join "/p2p/" id) in
      let keypair = ed25519 public secret in
      let peer : PeerId = record { bytes = bytes } in
      let node = new_node host default_keypair listens keypair (some peer) in
      (init host default_keypair listens addr t (some keypair)
        ≡ some (
          node,
          peer,
          add_address peer a
              ∷ spawns client_event_loop
              ∷ spawns proxy_requests
              ∷ spawns cmd_requests
              ∷ spawns new_streams
              ∷ spawns new_sessions
              ∷ [],
        ))
      × (start_server host default_keypair listens (some addr) (some port) key_type (some keypair)
          ≡ some (
            node,
            add_address peer a
                ∷ spawns publish_requests
                ∷ get_closest_peers
                ∷ listen_on (join "/ip4/0.0.0.0/tcp/" port)
                ∷ spawns server_event_loop
                ∷ spawns proxy_requests
                ∷ spawns cmd_requests
                ∷ spawns new_streams
                ∷ [],
          ))
  unfolding init start_server from_keypair_to_whitenoise_id Option.bind
  nodes_start =
      let both = bootstrap_address host a id bytes plain whole decodes valid parses parses' in
      (rw both.1 (rw both.0 refl), rw both.1 (rw free refl))
