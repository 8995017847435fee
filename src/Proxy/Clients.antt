-- ===== src/Proxy/Clients.antt =====
-- network/proxy_event_handler.rs: what registration and its end make of the two client maps.
use white_noise_rs.Prelude.{
  ◌∙◌, ==_refl, false, ℕ, String, ◌≡◌, refl, not, ◌&&◌, Option, none, some, List, ◌∷◌, [], ◌==◌,
  string_eq, arith, if◌then◌else◌, is_some, as_bytes,
}
use white_noise_rs.HashMap.{get, get-insert, get-remove}
use white_noise_rs.Proto.{Request, NewProxy, Ack}
use white_noise_rs.Host.{Host, PeerId, to_base58}
use white_noise_rs.State.{ClientInfo, ack_request}
use white_noise_rs.Task.{Effect, World, done, node_request, pure, modify, ◌>>=◌}
use white_noise_rs.Utils.Ids.{from_whitenoise_to_hash}
use white_noise_rs.Proxy.Registry.{answer, client_of, register, unregister}

abbrev pub answer_effect : PeerId → Ack → Effect
answer_effect peer ack =
    node_request (ack_request (record { remote_peer_id = peer; ack_request = some ack }))

abbrev pub or_client : Option ClientInfo → ClientInfo → ClientInfo
or_client none c = c
or_client (some old) c = old

abbrev pub registration_text : Option ClientInfo → List ℕ
registration_text none = []
registration_text (some old) = as_bytes "Proxy already"

module _ (host : Host) (peer : PeerId) (request : Request) (msg : NewProxy) (hash : String)
    (w : World) (decodes : host.new_proxy.decode request.payload ≡ some msg)
    (hashes : from_whitenoise_to_hash host msg.white_noise_id ≡ some hash) where
  -- The first registration of a hash wins: it stands under the hash, with its peer listed, and is
  -- acknowledged; a later one changes no map and is refused. No other entry changes.
  pub register_first :
      (o : Option ClientInfo) (k q : String)
      → get w.shared.client_wn_map hash ≡ o
      → let r = register host peer request w in
        (r.0 ≡ done tt)
        × (get r.1.shared.client_wn_map k ≡ (
            if hash == k
            then some (or_client o (client_of host peer msg))
            else get w.shared.client_wn_map k))
        × (get r.1.shared.client_peer_map q ≡ (
            if not (is_some o) && (to_base58 host peer == q)
            then some hash
            else get w.shared.client_peer_map q))
        × (r.1.out
            ≡ answer_effect peer (record {
              command_id = request.req_id;
              result = not (is_some o);
              payload = registration_text o;
            })
              ∷ w.out)
  unfolding register answer ◌>>=◌
  register_first none k q e = rw decodes (
      rw hashes (
        rw e (
          refl,
          get-insert w.shared.client_wn_map hash k _,
          get-insert w.shared.client_peer_map (to_base58 host peer) q hash,
          refl,
        )))
  register_first (some old) k q e =
      rw decodes (rw hashes (rw e (refl, ground (arith, string_eq.agrees hash k), refl, refl)))

abbrev pub client_forgotten : Option String → String → Option ClientInfo → Option ClientInfo
client_forgotten none k old = old
client_forgotten (some hash) k old = if hash == k then none else old

-- A peer that unregisters or disconnects is no longer listed, and the client of the hash that it was listed
-- with is gone; every other entry of the two maps stays, and nothing is sent.
pub unregister_forgets :
    (host : Host) (peer : PeerId) (w : World) (o : Option String) (k q : String)
    → get w.shared.client_peer_map (to_base58 host peer) ≡ o
    → let r = unregister host peer w in
      (r.0 ≡ done tt)
      × (get r.1.shared.client_peer_map q
          ≡ (if to_base58 host peer == q then none else get w.shared.client_peer_map q))
      × (get r.1.shared.client_wn_map k ≡ client_forgotten o k (get w.shared.client_wn_map k))
      × (r.1.out ≡ w.out)
unfolding unregister ◌>>=◌ pure modify
unregister_forgets host peer w none k q e =
    rw e (refl, get-remove w.shared.client_peer_map (to_base58 host peer) q, refl, refl)
unregister_forgets host peer w (some hash) k q e = rw e (
  refl,
  get-remove w.shared.client_peer_map (to_base58 host peer) q,
  get-remove w.shared.client_wn_map hash k,
  refl,
)

module _ (host : Host) (peer : PeerId) (request1 request2 : Request) (msg1 msg2 : NewProxy)
    (hash1 hash2 : String) (w : World)
    (decodes1 : host.new_proxy.decode request1.payload ≡ some msg1)
    (decodes2 : host.new_proxy.decode request2.payload ≡ some msg2)
    (hashes1 : from_whitenoise_to_hash host msg1.white_noise_id ≡ some hash1)
    (hashes2 : from_whitenoise_to_hash host msg2.white_noise_id ≡ some hash2)
    (fresh1 : get w.shared.client_wn_map hash1 ≡ none)
    (fresh2 : get w.shared.client_wn_map hash2 ≡ none) (distinct : (hash1 == hash2) ≡ false)
    (distinct' : (hash2 == hash1) ≡ false) where
  -- A peer that registers under two new hashes and then disconnects leaves the client of the first behind:
  -- the node keeps it although the peer is no longer listed.
  pub second_registration_leaves_first :
      let w1 = (register host peer request1 w).1 in
      let w2 = (register host peer request2 w1).1 in
      let r = unregister host peer w2 in
      (r.0 ≡ done tt)
      × (get r.1.shared.client_peer_map (to_base58 host peer) ≡ none)
      × (get r.1.shared.client_wn_map hash2 ≡ none)
      × (get r.1.shared.client_wn_map hash1 ≡ some (client_of host peer msg1))
  second_registration_leaves_first =
      let peer_text = to_base58 host peer in
      let first = register_first host peer request1 msg1 hash1 w decodes1 hashes1 none in
      let w1 = (register host peer request1 w).1 in
      let still_fresh : get w1.shared.client_wn_map hash2 ≡ none =
        (first hash2 peer_text fresh1).1 ∙ rw distinct fresh2 in
      let second = register_first host peer request2 msg2 hash2 w1 decodes2 hashes2 none in
      let w2 = (register host peer request2 w1).1 in
      let listed : get w2.shared.client_peer_map peer_text ≡ some hash2 =
        (second hash2 peer_text still_fresh).2 ∙ rw (==_refl peer_text) refl in
      let gone = λ (k : String). unregister_forgets host peer w2 (some hash2) k peer_text listed in
      let kept : get w2.shared.client_wn_map hash1 ≡ some (client_of host peer msg1) =
        (second hash1 peer_text still_fresh).1
        ∙ rw distinct' ((first hash1 peer_text fresh1).1 ∙ rw (==_refl hash1) refl) in
      (
        (gone hash1).0,
        (gone hash1).1 ∙ rw (==_refl peer_text) refl,
        (gone hash2).2 ∙ rw (==_refl hash2) refl,
        (gone hash1).2 ∙ rw distinct' kept,
      )
