-- ===== src/Witnesses/Clients.antt =====
-- Runs of the tasks that serve clients and other nodes.
use white_noise_rs.Prelude.{
  ℕ, ◌≡◌, refl, none, some, List, [], ◌∷◌, string_eq, bytes_eq, All, split_at_one,
}
use white_noise_rs.HashMap.{get, insert, remove, empty}
use white_noise_rs.Proto.{Request, NewProxy}
use white_noise_rs.Host.{to_base58}
use white_noise_rs.State.{new_shared}
use white_noise_rs.Task.{◌>>=◌, World, proxied, commanded, gossiped}
use white_noise_rs.Utils.Ids.{from_whitenoise_to_hash}
use white_noise_rs.Proxy.{process_proxy_request}
use white_noise_rs.Proxy.Registry.{register, unregister, client_of, answer}
use white_noise_rs.Proxy.Clients.{unregister_forgets, second_registration_leaves_first}
use white_noise_rs.Invariant.Updates.{Fits, new_shared-Fits}
use white_noise_rs.Invariant.Loops.{process_proxy_request-Fits}
use white_noise_rs.Witnesses.Setting.{host, peer, quiet, world}

abbrev asked : ℕ → List ℕ → Request
asked type payload = record { req_id = "r"; from = "a"; reqtype = type; payload = payload }

abbrev first_client : NewProxy
first_client = record { time = ""; white_noise_id = "0a" }

abbrev second_id : NewProxy
second_id = record { time = ""; white_noise_id = "0b" }

abbrev started : World
started = world new_shared []

unregister_forgets_example :
    get
      (unregister host
        (peer 1)
        (register host (peer 1) (asked 1 []) started).1).1.shared.client_wn_map
      "a"
    ≡ none
unfolding from_whitenoise_to_hash get insert remove empty new_shared split_at_one register to_base58
    answer ◌>>=◌
unregister_forgets_example =
    (unregister_forgets host (peer 1) (register host (peer 1) (asked 1 []) started).1 (some "a") "a"
      "a" refl).2

second_registration_leaves_first_example :
    let w1 = (register host (peer 1) (asked 1 []) started).1 in
    let w2 = (register host (peer 1) (asked 1 (0 ∷ [])) w1).1 in
    let r = unregister host (peer 1) w2 in
    (get r.1.shared.client_peer_map (to_base58 host (peer 1)) ≡ none)
    × (get r.1.shared.client_wn_map "a" ≡ some (client_of host (peer 1) first_client))
unfolding from_whitenoise_to_hash get empty new_shared split_at_one
second_registration_leaves_first_example =
    let r =
      second_registration_leaves_first host (peer 1) (asked 1 []) (asked 1 (0 ∷ [])) first_client
        second_id "a" "b" started refl refl refl refl refl refl refl refl in
    (r.1, r.3)

abbrev registering : World
registering = world new_shared (
    quiet (
      proxied (
        some (record {
          remote_peer_id = peer 1;
          proxy_request = some (asked 1 []);
          peer_operation = none;
        })))
    ∷ [])

process_proxy_request-Fits_example :
    let r = process_proxy_request host registering in
    Fits host 0 r.1.shared × All (Fits host 0) r.1.seen
process_proxy_request-Fits_example =
    process_proxy_request-Fits host registering (new_shared-Fits host) (λ s h. h, tt) tt

abbrev commanding : World
commanding = world new_shared (
    quiet (
      commanded (
        some (record {
          remote_peer_id = peer 1;
          cmd_request = some (record { command_id = "c"; type = 0; from = "a"; payload = [] });
        })))
    ∷ [])

abbrev gossiping : World
gossiping = world new_shared (quiet (gossiped (some (1 ∷ []))) ∷ [])
