-- ===== src/Client/Calls.antt =====
-- network/node.rs: what the calls of a client leave, and that they end.
use white_noise_rs.Prelude.{
  ℕ, String, ◌≡◌, ◌≢◌, refl, Bool, true, false, some, List, [], ◌∷◌, All, Bool-cases, inl, inr,
  if◌then◌else◌,
}
use white_noise_rs.Proto.{Ack, NodeInfo, Request, reqtype_i32, new_proxy}
use white_noise_rs.Host.{Host, PeerId}
use white_noise_rs.State.{proxy_request}
use white_noise_rs.Task.{Input, World, done, spent, node_request, resolved, modify_local, ◌>>=◌}
use white_noise_rs.Task.Keeps.{Rely, Keeps, keeps_rules, Keeps-modify, Keeps-pure, Keeps-bind}
use white_noise_rs.Utils.Ids.{from_request_get_id}
use white_noise_rs.Account.{from_keypair_to_whitenoise_id}
use white_noise_rs.Node.Requests.{get_id}
use white_noise_rs.Node.Waiters.{request_waits_registered}
use white_noise_rs.Invariant.Updates.{Fits, circuit_task-Fits, dial_circuit-Fits}
use white_noise_rs.Invariant.Sessions.{new_session_to_peer-Keeps, send_and_wait-Keeps}
use white_noise_rs.Client.{
  learn_peer, learn_peers, get_main_nets, keyed_request, accept_proxy, register_proxy, new_circuit,
  generate_session_id, dial,
}

module _ (host : Host) {floor : ℕ} where
  learn_peer-Keeps :
      (peer : NodeInfo) (addr : List String) → Keeps (Fits host floor) (learn_peer host peer addr)
  learn_peer-Keeps peer [] = search keeps_rules
  learn_peer-Keeps peer (a ∷ l) = search keeps_rules

  learn_peers-Keeps : (peers : List NodeInfo) → Keeps (Fits host floor) (learn_peers host peers)
  unfolding learn_peers
  learn_peers-Keeps [] = Keeps-pure tt
  learn_peers-Keeps (peer ∷ peers) =
      Keeps-bind _ _ (learn_peer-Keeps peer peer.addr) (λ _. learn_peers-Keeps peers)

  pub get_main_nets-Keeps :
      (cnt : ℕ) (peer : PeerId) (addr : String)
      → Keeps (Fits host floor) (get_main_nets host cnt peer addr)
  unfolding get_main_nets
  get_main_nets-Keeps cnt peer addr =
      search (keeps_rules, send_and_wait-Keeps, learn_peers-Keeps) depth 14

  accept_proxy-Keeps :
      (b : Bool) (peer : PeerId) → Keeps (Fits host floor) (accept_proxy host b peer)
  accept_proxy-Keeps true peer = search keeps_rules
  accept_proxy-Keeps false peer = search keeps_rules

  pub register_proxy-Keeps : (peer : PeerId) → Keeps (Fits host floor) (register_proxy host peer)
  unfolding register_proxy
  register_proxy-Keeps peer = search (keeps_rules, send_and_wait-Keeps, accept_proxy-Keeps) depth 14

  new_circuit-Keeps :
      (remote local own id : String) (proxy : PeerId)
      → Keeps (Fits host floor) (new_circuit host remote local own id proxy)
  unfolding new_circuit
  new_circuit-Keeps remote local own id proxy = search (keeps_rules, send_and_wait-Keeps) depth 14

  generate_session_id-Keeps :
      (remote local : String) → Keeps (Fits host floor) (generate_session_id host remote local)
  unfolding generate_session_id
  generate_session_id-Keeps remote local = search keeps_rules

  pub dial-Keeps : (remote : String) → Keeps (Fits host floor) (dial host remote)
  unfolding dial
  dial-Keeps remote =
      search
        (
          keeps_rules, generate_session_id-Keeps, new_session_to_peer-Keeps, new_circuit-Keeps,
          Keeps-modify, circuit_task-Fits, dial_circuit-Fits,
        )
        depth 30

  -- The three calls of a client keep the invariant of the shared maps, whatever the other tasks do that keeps
  -- it, at their ends and at every suspension point, and none of them runs out of fuel.
  pub calls-Fits :
      (remote addr : String) (peer : PeerId) (cnt : ℕ) (w : World)
      → Fits host floor w.shared
      → Rely (Fits host floor) w.inputs
      → All (Fits host floor) w.seen
      → let d = dial host remote w in
        let p = register_proxy host peer w in
        let n = get_main_nets host cnt peer addr w in
        (Fits host floor d.1.shared × All (Fits host floor) d.1.seen × (d.0 ≢ spent))
        × (Fits host floor p.1.shared × All (Fits host floor) p.1.seen × (p.0 ≢ spent))
        × (Fits host floor n.1.shared × All (Fits host floor) n.1.seen × (n.0 ≢ spent))
  calls-Fits remote addr peer cnt w fits rely seen =
      let d = (dial-Keeps remote).at w (fits, rely, seen) in
      let p = (register_proxy-Keeps peer).at w (fits, rely, seen) in
      let n = (get_main_nets-Keeps cnt peer addr).at w (fits, rely, seen) in
      (
        (d.0, d.2, (dial-Keeps remote).consumes.ends w),
        (p.0, p.2, (register_proxy-Keeps peer).consumes.ends w),
        (n.0, n.2, (get_main_nets-Keeps cnt peer addr).consumes.ends w),
      )

-- The registration request of a client, with an empty id.
abbrev pub registration : Host → String → World → Request
registration host id w = record {
  req_id = "";
  from = get_id host w.local;
  reqtype = reqtype_i32 new_proxy;
  payload = host.new_proxy.encode (record { time = "60m"; white_noise_id = id });
}

module _ (host : Host) (peer : PeerId) (id : String) (ack : Ack) (i : Input) (rest : List Input)
    (w : World) (identity : from_keypair_to_whitenoise_id host w.local.keypair ≡ some id)
    (next : w.inputs ≡ i ∷ rest) (answers : i.answer ≡ resolved ack) where
  -- A client that asks a node to be its proxy sends that node its identity under the hash of the request, and
  -- takes the node as its proxy exactly if the ack is positive.
  pub register_proxy_follows_ack :
      let r = register_proxy host peer w in
      let request = registration host id w in
      (r.0 ≡ done ack.result)
      × (r.1.local.proxy_id ≡ (if ack.result then some peer else w.local.proxy_id))
      × (r.1.out
          ≡ node_request
              (proxy_request (keyed_request peer request (from_request_get_id host request)))
            ∷ w.out)
  unfolding register_proxy ◌>>=◌ modify_local
  register_proxy_follows_ack =
      let request = registration host id w in
      let key = from_request_get_id host request in
      let asked =
        (request_waits_registered key (proxy_request (keyed_request peer request key)) w i rest ack
          next answers).0 in
      elim (Bool-cases ack.result) [
        | inl granted ↦ rw identity (rw (asked, ◌>>=◌) (rw granted (refl, refl, refl)))
        | inr refused ↦ rw identity (rw (asked, ◌>>=◌) (rw refused (refl, refl, refl)))
      ]
