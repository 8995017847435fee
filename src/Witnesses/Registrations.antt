-- ===== src/Witnesses/Registrations.antt =====
-- The theorem of Registration at a concrete exchange.
use white_noise_rs.Prelude.{◌≡◌, refl, true, none, some, [], ◌∷◌, string_eq, String, split_at_one}
use white_noise_rs.HashMap.{get, get-empty}
use white_noise_rs.Proto.{NewProxy}
use white_noise_rs.Host.{Host, ed25519}
use white_noise_rs.State.{ClientInfo, new_shared}
use white_noise_rs.Task.{Input, World, done, resolved}
use white_noise_rs.Utils.Ids
use white_noise_rs.Utils.Ids.{from_request_get_id}
use white_noise_rs.Account
use white_noise_rs.Client.{keyed_request, register_proxy}
use white_noise_rs.Client.Calls.{registration}
use white_noise_rs.Proxy.{handle_proxy_request}
use white_noise_rs.Proxy.Registry.{client_of}
use white_noise_rs.Registration.{received, registration_ack, registration_meets}
use white_noise_rs.Witnesses.Setting
use white_noise_rs.Witnesses.Setting.{peer, quiet, world}

abbrev own_registration : NewProxy
own_registration = record { time = "60m"; white_noise_id = "0a" }

abbrev registering_host : Host
registering_host = record Setting.host {
  new_proxy = record { encode = λ m. []; decode = λ b. some own_registration };
}

abbrev alone : World
alone = record (world new_shared []) {
  local = record { keypair = ed25519 (1 ∷ []) []; proxy_id = none; boot_peer_id = none };
}

abbrev key : String
key = from_request_get_id registering_host (registration registering_host "0a" alone)

abbrev acked : Input
acked = quiet (resolved (registration_ack key none))

abbrev asking : World
asking = record alone { inputs = acked ∷ [] }

abbrev node : World
node = world new_shared []

registration_meets_example :
    let served =
      handle_proxy_request registering_host
        (received (peer 7) (keyed_request (peer 4) (registration registering_host "0a" asking) key))
        node in
    (get served.1.shared.client_wn_map "a"
      ≡ some (client_of registering_host (peer 7) own_registration))
    × ((register_proxy registering_host (peer 4) asking).0 ≡ done true)
    × ((register_proxy registering_host (peer 4) asking).1.local.proxy_id ≡ some (peer 4))
unfolding Account.from_keypair_to_whitenoise_id Ids.from_whitenoise_to_hash split_at_one new_shared
registration_meets_example =
    let r =
      registration_meets registering_host (peer 4) (peer 7) "0a" "a" none (λ c. true) acked []
        asking node refl refl refl (get-empty {K = String} {V = ClientInfo} "a") refl refl refl in
    (r.3, r.6, r.7)
