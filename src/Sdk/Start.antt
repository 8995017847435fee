-- ===== src/Sdk/Start.antt =====
-- sdk/host.rs and WhiteNoiseClient::init of sdk/client.rs: how a node is put together and which tasks it runs.
-- The transport and the behaviours of libp2p are built without any choice of the program's own.
use white_noise_rs.Prelude.{String, Bool, Option, none, some, List, [], ◌∷◌, ◌++◌, if◌then◌else◌}
use mathlib.Core.Option
use white_noise_rs.Host.{Host, PeerId, Keypair}
use white_noise_rs.State.{Shared, Local, new_shared}
use white_noise_rs.Account.{from_keypair_to_whitenoise_id}
use white_noise_rs.Account.Keys.{KeyType, from_text_str}
use white_noise_rs.Sdk.Bootstrap.{bootstrap_peer, bootstrap_entry, join}

pub data RunMode : Type 0 where
  client_mode server_mode : RunMode

-- What is spawned.
pub data StartTask : Type 0 where
  publish_requests proxy_requests cmd_requests client_event_loop server_event_loop : StartTask
  new_streams new_sessions : StartTask

pub data StartEffect : Type 0 where
  -- an address for the routing table, a search in it, and Swarm::listen_on
  add_address : PeerId → String → StartEffect
  get_closest_peers : StartEffect
  listen_on : String → StartEffect
  spawns : StartTask → StartEffect

pub record Node : Type 0 where
  pub shared : Shared
  pub local : Local

-- `none` is a panic. `default_keypair` is Account::get_default_account_keypair, and `listens` tells the addresses
-- that parse and that Swarm::listen_on takes.
module _ (host : Host) (default_keypair : KeyType → Option Keypair) (listens : String → Bool) where
  abbrev pub own_keypair : Option Keypair → KeyType → Option Keypair
  own_keypair none key_type = default_keypair key_type
  own_keypair (some x) key_type = some x

  -- The bootstrap peer, and what it puts into the routing table.
  abbrev pub bootstrapped : Option String → Option (Option PeerId × List StartEffect)
  bootstrapped none = some (none, [])
  bootstrapped (some bootstrap_addr) =
      Option.map (λ e. (some e.0, add_address e.0 e.1 ∷ [])) (bootstrap_entry host bootstrap_addr)

  abbrev pub listening : Option String → Option (List StartEffect)
  listening none = some []
  listening (some port) =
      let addr = join "/ip4/0.0.0.0/tcp/" port in
      if listens addr then some (listen_on addr ∷ []) else none

  -- What each mode does, in its order.
  abbrev pub run : RunMode → Option String → Option (List StartEffect)
  run client_mode port_option =
      Option.map (λ l. l ++ spawns client_event_loop ∷ []) (listening port_option)
  run server_mode port_option =
      Option.map
        (λ l. spawns publish_requests ∷ get_closest_peers ∷ l ++ spawns server_event_loop ∷ [])
        (listening port_option)

  abbrev pub new_node : Keypair → Option PeerId → Node
  new_node keypair boot_peer_id = record {
    shared = new_shared;
    local = record { keypair = keypair; proxy_id = none; boot_peer_id = boot_peer_id };
  }

  unfoldable pub start :
      Option String
      → Option String
      → RunMode
      → Option Keypair
      → KeyType
      → Option (Node × List StartEffect)
  start port_option bootstrap_addr_option run_mode key_pair key_type =
      Option.bind (own_keypair key_pair key_type) (λ id_keys.
        Option.bind (bootstrapped bootstrap_addr_option) (λ b.
          Option.map
            (λ effects. (
              new_node id_keys b.0,
              b.1 ++ effects ++ spawns proxy_requests ∷ spawns cmd_requests ∷ [],
            ))
            (run run_mode port_option)))

  unfoldable pub start_server :
      Option String → Option String → String → Option Keypair → Option (Node × List StartEffect)
  unfolding start
  start_server bootstrap_addr_option port_option key_type key_pair =
      Option.map (λ r. (r.0, r.1 ++ spawns new_streams ∷ []))
        (start port_option bootstrap_addr_option server_mode key_pair (from_text_str key_type))

  -- WhiteNoiseClient::init: the node, the bootstrap peer, and what it does.
  unfoldable pub init :
      String → KeyType → Option Keypair → Option (Node × PeerId × List StartEffect)
  unfolding start
  init bootstrap_addr_str key_type keypair =
      Option.bind (start none (some bootstrap_addr_str) client_mode keypair key_type) (λ r.
        Option.bind (bootstrap_peer host bootstrap_addr_str) (λ bootstrap_peer_id.
          Option.map
            (λ id. (r.0, bootstrap_peer_id, r.1 ++ spawns new_streams ∷ spawns new_sessions ∷ []))
            (from_keypair_to_whitenoise_id host r.0.local.keypair)))
