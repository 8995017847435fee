-- ===== src/Registration.antt =====
-- network/node.rs, network/proxy_event_handler.rs and network/whitenoise_behaviour.rs: the registration of a
-- client at a node, from the request to the ack.
use white_noise_rs.Swarm.Acks.{ack_resolves_once}
use white_noise_rs.Swarm.{request_message, resolve, inject_ack_event}
use white_noise_rs.Proxy.Registry.{client_of}
use white_noise_rs.Proxy.{handle_proxy_request, handle_request}
use white_noise_rs.Prelude.{
  String, ◌≡◌, refl, not, Bool-cases, inl, inr, Option, some, List, ◌∷◌, string_eq, if◌then◌else◌,
  is_some, ℕ, Bool, ◌∙◌, ==_refl, ap, [], true,
}
use white_noise_rs.HashMap.{get}
use white_noise_rs.Proto.{Ack, NewProxy}
use white_noise_rs.Host.{Host, PeerId, to_base58}
use white_noise_rs.State.{ClientInfo, NodeProxyRequest, proxy_request}
use white_noise_rs.Task.{Input, World, done, node_request, resolved, modify_local, ◌>>=◌, Flow}
use white_noise_rs.Utils.Ids.{from_request_get_id, from_whitenoise_to_hash}
use white_noise_rs.Account.{from_keypair_to_whitenoise_id}
use white_noise_rs.Node.Waiters.{awaiting, request_waits_registered}
use white_noise_rs.Client.{keyed_request, register_proxy}
use white_noise_rs.Client.Calls.{registration}
use white_noise_rs.Proxy.Clients.{registration_text, answer_effect, or_client, register_first}

-- The request as the node gets it from the client.
abbrev pub received : PeerId → NodeProxyRequest → NodeProxyRequest
received client r = record r { remote_peer_id = client }

abbrev pub registration_ack : String → Option ClientInfo → Ack
registration_ack key o = record {
  command_id = key;
  result = not (is_some o);
  payload = registration_text o;
}

module _ (host : Host) (peer : PeerId) (id : String) (ack : Ack) (i : Input) (rest : List Input)
    (w : World) (identity : from_keypair_to_whitenoise_id host w.local.keypair ≡ some id)
    (next : w.inputs ≡ i ∷ rest) (answers : i.answer ≡ resolved ack) where
  abbrev key : String
  key = from_request_get_id host (registration host id w)

  -- Where the registration ends.
  abbrev registered : World
  registered = record w {
    shared = i.others (awaiting key w.shared);
    local = record w.local { proxy_id = if ack.result then some peer else w.local.proxy_id };
    out = node_request (proxy_request (keyed_request peer (registration host id w) key)) ∷ w.out;
    inputs = rest;
    seen = awaiting key w.shared ∷ w.seen;
  }

  register_proxy-done : register_proxy host peer w ≡ (done ack.result, registered)
  unfolding register_proxy ◌>>=◌ modify_local
  register_proxy-done =
      let asked =
        (request_waits_registered key
          (proxy_request (keyed_request peer (registration host id w) key)) w i rest ack next
          answers).0 in
      elim (Bool-cases ack.result) [
        | inl granted ↦ rw identity (rw (asked, ◌>>=◌) (rw granted refl))
        | inr refused ↦ rw identity (rw (asked, ◌>>=◌) (rw refused refl))
      ]

module _ (host : Host) (peer client : PeerId) (id hash : String) (o : Option ClientInfo)
    (alive : ℕ → Bool) (i : Input) (rest : List Input) (w v : World)
    (identity : from_keypair_to_whitenoise_id host w.local.keypair ≡ some id)
    (hashes : from_whitenoise_to_hash host id ≡ some hash)
    (kept : host.new_proxy.decode
        (host.new_proxy.encode (record { time = "60m"; white_noise_id = id }))
      ≡ some (record { time = "60m"; white_noise_id = id }))
    (held : get v.shared.client_wn_map hash ≡ o) (next : w.inputs ≡ i ∷ rest)
    (answers : i.answer
      ≡ resolved (registration_ack (from_request_get_id host (registration host id w)) o))
    (waits : alive w.shared.next_channel ≡ true) where
  -- A client registers at a node: it sends one request, and waits with the sender for the ack in its event bus.
  -- The node, which gets the request from the client's peer, stores the client under the hash of its id unless
  -- another has that hash, and answers the client's peer with one ack that tells which. The swarm of the
  -- client gives that ack to the task that waits, and the client has the node as its proxy exactly if it was
  -- stored.
  pub registration_meets :
      let request = registration host id w in
      let key = from_request_get_id host request in
      let sent = keyed_request peer request key in
      let asked = register_proxy host peer w in
      let served = handle_proxy_request host (received client sent) v in
      let ack = registration_ack key o in
      let msg : NewProxy = record { time = "60m"; white_noise_id = id } in
      (asked.1.out ≡ node_request (proxy_request sent) ∷ w.out)
      × (asked.1.seen ≡ awaiting key w.shared ∷ w.seen)
      × (served.0 ≡ done tt)
      × (get served.1.shared.client_wn_map hash ≡ some (or_client o (client_of host client msg)))
      × (served.1.out ≡ answer_effect client ack ∷ v.out)
      × ((inject_ack_event alive (request_message peer ack) (awaiting key w.shared)).0
          ≡ some (resolve w.shared.next_channel ack ∷ []))
      × (asked.0 ≡ done (not (is_some o)))
      × (asked.1.local.proxy_id ≡ (if not (is_some o) then some peer else w.local.proxy_id))
  unfolding handle_proxy_request handle_request ◌>>=◌
  registration_meets =
      let request = registration host id w in
      let key = from_request_get_id host request in
      let ack = registration_ack key o in
      let run = register_proxy-done host peer id ack i rest w identity next answers in
      let node =
        register_first host client (record request { req_id = key }) _ hash v kept hashes o hash
          (to_base58 host client) held in
      (
        ap (λ (e : Flow Bool × World). e.1.out) run,
        ap (λ (e : Flow Bool × World). e.1.seen) run,
        node.0,
        node.1 ∙ rw (==_refl hash) refl,
        node.3,
        (ack_resolves_once alive peer peer ack w.shared waits).0,
        ap (λ (e : Flow Bool × World). e.0) run,
        ap (λ (e : Flow Bool × World). e.1.local.proxy_id) run,
      )
