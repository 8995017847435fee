-- ===== src/Witnesses/Starts.antt =====
-- The theorems of Sdk, Codecs, Swarm/Handler, Swarm/Events and Account/Database at concrete inputs.
use white_noise_rs.Prelude.{
  is_some, ◌∙◌, String, ◌≡◌, refl, ap, Bool, true, false, none, some, List, [], ◌∷◌, length, leb,
  if◌then◌else◌, arith, bytes_eq, string_eq, ◌++◌,
}
use white_noise_rs.HashMap.{HashMap, empty, get-empty, contains_key, contains_key_lem}
use white_noise_rs.Proto.{Ack}
use white_noise_rs.Host.{Host, Keypair}
use white_noise_rs.State.{CircuitConn, NodeRequest, publish_data, new_stream_request, new_shared}
use white_noise_rs.Task.{Input, elapsed, World, announce}
use white_noise_rs.Account.Keys.{KeyType}
use white_noise_rs.Account.Database.{
  KeyCodec, Db, db_key, get_default_account_keypair, generate, keypair_kept,
}
use white_noise_rs.Codecs.{ok, Prefixed, Io, ack_codec}
use white_noise_rs.Codecs.Messages.{other_end, requests_arrive}
use white_noise_rs.Swarm.Handler.{
  Handed, negotiated_inbound, negotiated_outbound, asked, RelayHandlerInEvent, relay_inbound,
  relay_outbound, outbound_substream_request, polls, hand_all, new_handler, handler_gives_all,
}
use white_noise_rs.Swarm.Events.{
  Selected, closed, next_request, whitenoise_client_event_loop, whitenoise_server_event_loop,
  without_server_requests, client_loop_agrees,
}
use white_noise_rs.Sdk.{process_new_stream, process_new_session, new_session_round}
use white_noise_rs.Sdk.Streams.{Served, process_new_stream_spawns}
use white_noise_rs.Sdk.Sessions.{Distinct, announced, process_new_session_once}
use white_noise_rs.Sdk.Rounds.{new_session_round_last}
use white_noise_rs.Witnesses.Setting.{host, peer, conn, stream_a, stream_b, world}

-- One stream waits, and another comes in during the first wait.
abbrev comes_in : Input
comes_in = record {
  answer = elapsed;
  others = λ s. record s { relay_in_streams = s.relay_in_streams ++ stream_b ∷ [] };
}

abbrev queued : World
queued = world (record new_shared { relay_in_streams = stream_a ∷ [] }) (comes_in ∷ [])

process_new_stream_spawns_example :
    Served (stream_a ∷ stream_b ∷ []) [] (process_new_stream 3 queued)
process_new_stream_spawns_example =
    process_new_stream_spawns ((stream_b ∷ []) ∷ []) queued (refl, (λ s. refl), tt)

unseen : (id : String) → contains_key (empty {K = String} {V = Bool}) id ≡ false
unseen id = contains_key_lem empty id ∙ ap is_some (get-empty id)

abbrev shaken : CircuitConn
shaken = record conn { transport_state = some 3 }

abbrev both : HashMap String CircuitConn → List (String × CircuitConn)
both m = ("r", conn) ∷ ("s", shaken) ∷ []

process_new_session_once_example :
    Distinct (announced (process_new_session both (world new_shared [])).1.out)
process_new_session_once_example = process_new_session_once both (world new_shared []) refl

new_session_round_last_example :
    (new_session_round both empty (world new_shared [])).1.out ≡ announce "s" ∷ []
new_session_round_last_example =
    ap (λ r. r.1.out)
      (new_session_round_last both empty (("r", conn) ∷ []) [] "s" shaken (world new_shared []) refl
        (unseen "s") tt)

abbrev handed : List Handed
handed =
    asked (RelayHandlerInEvent.dial (peer 1)) ∷ negotiated_outbound 5 ∷ negotiated_inbound 6 ∷ []

handler_gives_all_example :
    polls 4 (hand_all handed new_handler)
    ≡ some (relay_inbound 6) ∷ some (relay_outbound 5) ∷ some outbound_substream_request ∷ none ∷ []
handler_gives_all_example = handler_gives_all handed

abbrev asks : NodeRequest → Selected
asks r = next_request (λ n. true) (λ b. true) [] r

abbrev selected : List Selected
selected =
    asks (publish_data (record { payload = []; sender = 0 }))
    ∷ asks (new_stream_request (record { peer_id = peer 1 }))
    ∷ closed
    ∷ []

client_loop_agrees_example :
    whitenoise_client_event_loop selected
    ≡ whitenoise_server_event_loop host (without_server_requests selected)
client_loop_agrees_example = client_loop_agrees host selected

abbrev plain_host : Host
plain_host = record host {
  ack = record {
    encode = λ a. 1 ∷ [];
    decode = λ b. some (record { command_id = "k"; result = true; payload = [] });
  };
  command = record {
    encode = λ a. 1 ∷ [];
    decode = λ b. some (record { command_id = "k"; type = 0; from = ""; payload = [] });
  };
  request = record {
    encode = λ a. 1 ∷ [];
    decode = λ b. some (record { req_id = "k"; from = ""; reqtype = 0; payload = [] });
  };
}

abbrev bare : Prefixed
bare = record {
  with_len_prefix = λ b. b;
  read_one = λ limit b. if leb (length b) limit then some b else none;
}

abbrev io : Io
io = record { arrives = []; written = []; works = true }

abbrev ack : Ack
ack = record { command_id = "k"; result = true; payload = [] }

requests_arrive_example :
    (ack_codec bare plain_host).reads_request
      (other_end ((ack_codec bare plain_host).writes_request ack io).1)
    ≡ ok ack
requests_arrive_example =
    (requests_arrive bare (λ b h. ground arith) (λ b h. ground arith) plain_host ack
      (record { command_id = "k"; type = 0; from = ""; payload = [] })
      (record { req_id = "k"; from = ""; reqtype = 0; payload = [] }) io refl refl refl refl
      refl).0.1

abbrev keys : KeyCodec
keys = record {
  generate_ed25519 = λ n. (n ∷ [], n ∷ []);
  generate_secp256k1 = λ n. (n ∷ [], n ∷ []);
  encode_ed25519 = λ p s. p;
  decode_ed25519 = λ b. some (b, b);
  secp256k1_from_bytes = λ b. some (b, b);
}

keypair_kept_example :
    (first : Db) × (k : Keypair) × (second : Db) × (get_default_account_keypair keys KeyType.ed25519
        7 empty
      ≡ some (generate keys KeyType.ed25519 7, first))
    × (get_default_account_keypair keys KeyType.secp256k1 8 first ≡ some (k, second))
    × (get_default_account_keypair keys KeyType.ed25519 9 second
        ≡ some (generate keys KeyType.ed25519 7, second))
keypair_kept_example =
    keypair_kept keys (λ seed. refl) (λ seed. refl) KeyType.ed25519 KeyType.secp256k1 7 8 9 empty
      (λ u. get-empty (db_key u))
