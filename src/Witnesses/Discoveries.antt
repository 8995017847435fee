-- ===== src/Witnesses/Discoveries.antt =====
-- The theorem of Discovery at a concrete exchange: two of three nodes are connected, and one of these has an address.
use white_noise_rs.Prelude.{
  ◌≡◌, refl, true, false, some, List, [], ◌∷◌, string_eq, ℕ_eq, bytes_eq, arith,
}
use mathlib.Core.Option
use white_noise_rs.Client
use white_noise_rs.Host
use white_noise_rs.Prelude.{starts_with}
use white_noise_rs.Proto.{NodeInfo}
use white_noise_rs.Host.{Host}
use white_noise_rs.State.{new_shared}
use white_noise_rs.Task.{Input, done, resolved, node_infos}
use white_noise_rs.Utils.Ids.{from_request_get_id}
use white_noise_rs.Peers
use white_noise_rs.Host
use white_noise_rs.Swarm.{KadEntry, kad_loop, get_kad_peers, plain_addresses, has_p2p}
use white_noise_rs.Client.{get_main_nets}
use white_noise_rs.Discovery.{nodes_request, nodes_ack, nodes_discovered}
use white_noise_rs.Witnesses.Setting
use white_noise_rs.Witnesses.Setting.{peer, quiet, world, first_or_zero}

abbrev up : KadEntry
up = record { peer_id = peer 1; connected = true; addresses = "/ip4" ∷ [] }

abbrev down : KadEntry
down = record { peer_id = peer 2; connected = false; addresses = [] }

-- Connected, with an address that leads through another node only.
abbrev hidden : KadEntry
hidden = record { peer_id = peer 2; connected = true; addresses = "p2p" ∷ [] }

abbrev table : List KadEntry
table = up ∷ down ∷ hidden ∷ []

abbrev up_info : NodeInfo
up_info = record { id = "a"; addr = "/ip4" ∷ [] }

abbrev hidden_info : NodeInfo
hidden_info = record { id = "b"; addr = [] }

abbrev asking_host : Host
asking_host = record Setting.host {
  main_net_peers = record {
    encode = λ m. m.max ∷ [];
    decode = λ b. some (record { max = first_or_zero b });
  };
  peers_list = record {
    encode = λ l. [];
    decode = λ b. some (record { peers = up_info ∷ hidden_info ∷ [] });
  };
}

abbrev acked : Input
acked = quiet (
    resolved (
      nodes_ack asking_host (from_request_get_id asking_host (nodes_request asking_host 5))
        (get_kad_peers asking_host table 5)))

abbrev found : Input
found = quiet (node_infos (get_kad_peers asking_host table 5))

nodes_discovered_example :
    (get_main_nets asking_host 5 (peer 4) "/ip4" (world new_shared (acked ∷ []))).0
    ≡ done (record { peers = up_info ∷ [] })
unfolding kad_loop get_kad_peers plain_addresses has_p2p Peers.peer_of_text Option.bind
    Host.to_base58 starts_with Client.with_address
nodes_discovered_example =
    (nodes_discovered asking_host 5 (peer 4) (peer 7) "/ip4" table (λ c. true) (λ b. true) acked
      found [] [] (world new_shared (acked ∷ [])) (world new_shared (found ∷ [])) (omega arith)
      (((refl, tt), refl), ((tt, refl), (((refl, tt), refl), tt))) refl refl refl refl refl refl
      refl).3
