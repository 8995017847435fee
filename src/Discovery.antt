-- ===== src/Discovery.antt =====
-- network/node.rs, network/proxy_event_handler.rs and network/whitenoise_behaviour.rs: a client that asks a node for
-- the nodes of the network.
use white_noise_rs.Node.Waiters.{request_waits_registered, awaiting}
use white_noise_rs.Utils.Ids.{from_request_get_id}
use white_noise_rs.Proxy.Clients.{answer_effect}
use white_noise_rs.Proxy.Registry.{answer}
use white_noise_rs.Proxy.{handle_proxy_request, handle_request, send_main_net_peers}
use white_noise_rs.Swarm.Peers.{connected_infos, get_kad_peers-takes}
use white_noise_rs.Registration.{received}
use white_noise_rs.State.{add_peer_addresses_request, get_main_nets_request, proxy_request}
use white_noise_rs.Prelude.{
  ℕ, suc, String, ◌≡◌, refl, Bool-cases, true, inl, inr, some, List, ◌∷◌, [], ◌&&◌, string_eq, ℕ_eq,
  All, ◌^◌, ◌<◌, Bool, take, ap, ◌∙◌, if◌then◌else◌, false,
}
use white_noise_rs.Proto.{NodeInfo, Request, Ack, reqtype_i32, main_net_peers}
use white_noise_rs.Host.{Host, PeerId, to_base58}
use white_noise_rs.Task.{
  World, done, ◌>>=◌, Input, node_request, resolved, node_infos, wait_for, expect,
}
use white_noise_rs.Peers.{peer_of_text}
use white_noise_rs.Client.{
  parsed, learn_peer, learn_peers, with_address, keyed_request, get_main_nets,
}
use white_noise_rs.Swarm.{
  KadEntry, has_p2p, plain_addresses, below, kad_loop, get_kad_peers, resolve_peers, server_request,
}

abbrev pub has_no_address : List String → Bool
has_no_address [] = true
has_no_address (a ∷ l) = false

-- The nodes of the list that have an address.
abbrev pub reachable : List NodeInfo → List NodeInfo
reachable [] = []
reachable (info ∷ infos) =
    let rest = reachable infos in if has_no_address info.addr then rest else info ∷ rest

with_address-reachable :
    (host : Host) (infos : List NodeInfo) → with_address host infos ≡ reachable infos
unfolding with_address
with_address-reachable host [] = refl
with_address-reachable host (info ∷ infos) =
    by_address info.addr refl (with_address-reachable host infos)
  where
    by_address :
        (addr : List String)
        → info.addr ≡ addr
        → with_address host infos ≡ reachable infos
        → with_address host (info ∷ infos) ≡ reachable (info ∷ infos)
    by_address [] e h = rw e h
    by_address (a ∷ l) e h = simp (e, h)

module _ (host : Host) where
  -- An entry whose peer and addresses can be read back from their texts.
  abbrev pub Readable : KadEntry → Type 0
  Readable entry =
      All (λ a. host.valid_addr a ≡ true) entry.addresses
      × (peer_of_text host (to_base58 host entry.peer_id) ≡ some entry.peer_id)

  -- The same of what is sent for it.
  abbrev Usable : NodeInfo → Type 0
  Usable info =
      All (λ a. host.valid_addr a ≡ true) info.addr
      × (peer : PeerId) × (peer_of_text host info.id ≡ some peer)

  plain_addresses-All :
      (l : List String)
      → All (λ a. host.valid_addr a ≡ true) l
      → All (λ a. host.valid_addr a ≡ true) (plain_addresses l)
  unfolding plain_addresses
  plain_addresses-All [] v = v
  plain_addresses-All (a ∷ l) v = elim (Bool-cases (has_p2p a)) [
    | inl p2p ↦ rw p2p (plain_addresses-All l v.1)
    | inr plain ↦ rw plain (v.0, plain_addresses-All l v.1)
  ]

  kad_loop-Usable :
      (number cnt : ℕ) (entries : List KadEntry)
      → All Readable entries
      → All Usable (kad_loop host number cnt entries)
  unfolding kad_loop
  kad_loop-Usable number cnt [] r = tt
  kad_loop-Usable number cnt (entry ∷ entries) r =
      elim (Bool-cases (below cnt number && entry.connected)) [
        | inl counted ↦ rw counted (
          (plain_addresses-All entry.addresses r.0.0, entry.peer_id, r.0.1),
          kad_loop-Usable number (suc cnt) entries r.1,
        )
        | inr skipped ↦ rw skipped (kad_loop-Usable number cnt entries r.1)
      ]

  get_kad_peers-Usable :
      (number : ℕ) (entries : List KadEntry)
      → All Readable entries
      → All Usable (get_kad_peers host entries number)
  unfolding get_kad_peers
  get_kad_peers-Usable number entries r = kad_loop-Usable number 0 entries r

  parsed-valid : (l : List String) → All (λ a. host.valid_addr a ≡ true) l → parsed host l ≡ some l
  unfolding parsed
  parsed-valid [] v = refl
  parsed-valid (a ∷ l) v = rw (v.0) (rw (parsed-valid l v.1) refl)

  learn_peer-done :
      (info : NodeInfo) (addr : List String) (w : World)
      → All (λ a. host.valid_addr a ≡ true) addr
      → (peer : PeerId) → peer_of_text host info.id ≡ some peer
      → (learn_peer host info addr w).0 ≡ done tt
  unfolding ◌>>=◌
  learn_peer-done info [] w v peer e = refl
  learn_peer-done info (a ∷ l) w v peer e = rw (parsed-valid (a ∷ l) v) (rw e refl)

  learn_peers-done :
      (infos : List NodeInfo) (w : World)
      → All Usable infos
      → (learn_peers host infos w).0 ≡ done tt
  unfolding learn_peers ◌>>=◌
  learn_peers-done [] w u = refl
  learn_peers-done (info ∷ infos) w (u, us) =
      rw (learn_peer-done info info.addr w u.0 u.1 u.2)
        (learn_peers-done infos (learn_peer host info info.addr w).1 us)

-- The request for so many nodes, with an empty id.
abbrev pub nodes_request : Host → ℕ → Request
nodes_request host cnt = record {
  req_id = "";
  from = "";
  reqtype = reqtype_i32 main_net_peers;
  payload = host.main_net_peers.encode (record { max = cnt });
}

abbrev pub nodes_ack : Host → String → List NodeInfo → Ack
nodes_ack host key infos = record {
  command_id = key;
  result = true;
  payload = host.peers_list.encode (record { peers = infos });
}

module _ (host : Host) (cnt : ℕ) (peer client : PeerId) (addr : String) (entries : List KadEntry)
    (alive : ℕ → Bool) (publishes : List ℕ → Bool) (i j : Input) (rest more : List Input)
    (w v : World) (small : cnt < 2 ^ 31) (readable : All (Readable host) entries)
    (kept : host.main_net_peers.decode (host.main_net_peers.encode (record { max = cnt }))
      ≡ some (record { max = cnt }))
    (kept' : host.peers_list.decode
        (host.peers_list.encode (record { peers = get_kad_peers host entries cnt }))
      ≡ some (record { peers = get_kad_peers host entries cnt }))
    (waits : alive v.shared.next_channel ≡ true) (next' : v.inputs ≡ j ∷ more)
    (answers' : j.answer ≡ node_infos (get_kad_peers host entries cnt)) (next : w.inputs ≡ i ∷ rest)
    (answers : i.answer
      ≡ resolved (
          nodes_ack host
            (from_request_get_id host (nodes_request host cnt))
            (get_kad_peers host entries cnt))) where
  -- A client asks a node for so many nodes. The node's task asks its swarm, which answers from the
  -- routing table; with that answer the task sends one ack to the client's peer. With that ack the client has the
  -- first connected nodes of the routing table, as many as it asked for, less those without an address that
  -- it can use. Every peer id and address of the table has to be readable from its text.
  pub nodes_discovered :
      let key = from_request_get_id host (nodes_request host cnt) in
      let served =
        handle_proxy_request host
          (received client (keyed_request peer (nodes_request host cnt) key))
          v in
      let lookup = get_main_nets_request (record {
        command_id = key;
        remote_peer_id = client;
        num = cnt;
        sender = v.shared.next_channel;
      }) in
      let infos = get_kad_peers host entries cnt in
      (served.0 ≡ done tt)
      × (served.1.out
          ≡ answer_effect client (nodes_ack host key infos) ∷ node_request lookup ∷ v.out)
      × (server_request host alive publishes entries lookup
          ≡ (resolve_peers v.shared.next_channel infos ∷ [], true))
      × ((get_main_nets host cnt peer addr w).0
          ≡ done (record { peers = reachable (take cnt (connected_infos host entries)) }))
  unfolding handle_proxy_request handle_request send_main_net_peers answer server_request
      get_main_nets wait_for expect ◌>>=◌
  nodes_discovered =
      let key = from_request_get_id host (nodes_request host cnt) in
      let infos = get_kad_peers host entries cnt in
      let asking : World = record w {
        out =
            node_request (
              add_peer_addresses_request
                (record { remote_peer_id = peer; remote_addr = addr ∷ [] }))
            ∷ w.out;
      } in
      let asked =
        (request_waits_registered key
          (proxy_request (keyed_request peer (nodes_request host cnt) key)) asking i rest
          (nodes_ack host key infos) next answers).0 in
      let told : World = record asking {
        shared = i.others (awaiting key w.shared);
        out =
            node_request (proxy_request (keyed_request peer (nodes_request host cnt) key))
            ∷ asking.out;
        inputs = rest;
        seen = awaiting key w.shared ∷ w.seen;
      } in
      (
        rw kept (rw next' (rw answers' refl)),
        rw kept (rw next' (rw answers' refl)),
        rw waits refl,
        rw (asked, ◌>>=◌)
            (rw kept' (
              rw (learn_peers-done host infos told (get_kad_peers-Usable host cnt entries readable))
                (ap (λ l. done (record { peers = l }))
                  (ap (with_address host) (get_kad_peers-takes host cnt entries small)
                    ∙ with_address-reachable host (take cnt (connected_infos host entries)))))),
      )
