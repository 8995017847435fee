-- ===== src/Invariant/Clients.antt =====
-- network/proxy_event_handler.rs: registering and unregistering clients keeps the invariant.
use white_noise_rs.Proto.{Request, NewProxy, Ack}
use white_noise_rs.Host.{PeerId}
use white_noise_rs.State.{Shared}
use white_noise_rs.Task.{World, modify, pure, ◌>>=◌}
use white_noise_rs.Task.Consumes.{
  Consumes, Consumes-bind, Consumes-modify, Consumes-modifies, Consumes-pure, Consumes-emit,
}
use white_noise_rs.Task.Keeps.{Keeps, Sound, Keeps-bind, Keeps-bind-reads, Keeps-unwrap, Keeps-emit}
use white_noise_rs.Proxy.Registry.{
  answer, take_peer, forget_hash, unregister, client_of, register_hash, register,
}
use white_noise_rs.Invariant.Updates.{Fits}
use white_noise_rs.Prelude.{
  refl, String, none, some, ◌≡◌, ◌==◌, string_eq, Bool-cases, inl, inr, arith, Option, ℕ,
}
use white_noise_rs.HashMap.{HashMap, get, insert, remove, get-insert, get-remove}
use white_noise_rs.Host.{Host, to_base58}
use white_noise_rs.State.{ClientInfo}
use white_noise_rs.Invariant.Updates.{ClientsFit}

module _ (host : Host) (peers : HashMap String String) (clients : HashMap String ClientInfo) where
  insert-ClientsFit :
      (p hash : String) (c : ClientInfo)
      → ClientsFit host peers clients
      → get clients hash ≡ none
      → to_base58 host c.peer_id ≡ p
      → ClientsFit host (insert peers p hash) (insert clients hash c)
  insert-ClientsFit p hash c h fresh e q k found = elim (Bool-cases (p == q)) [
    | inl same ↦
        let e1 : hash ≡ k = ground (arith, get-insert peers p q hash) in
        (
          c,
          ground (arith, get-insert clients hash k c, string_eq.agrees hash k),
          ground (arith, string_eq.agrees p q),
        )
    | inr other ↦
        let (c', at_k, owner) = h q k (ground (arith, get-insert peers p q hash)) in
        (c', ground (arith, get-insert clients hash k c, string_eq.agrees hash k), owner)
  ]

  remove-ClientsFit :
      (p hash : String)
      → ClientsFit host peers clients
      → get peers p ≡ some hash
      → ClientsFit host (remove peers p) (remove clients hash)
  remove-ClientsFit p hash h listed q k found =
      let at_q : get peers q ≡ some k = ground (arith, get-remove peers p q) in
      let (c, at_k, owner) = h q k at_q in
      let (d, at_hash, owner') = h p hash listed in
      (
        c,
        ground (
          arith,
          get-remove clients hash k,
          get-remove peers p q,
          string_eq.agrees hash k,
          string_eq.agrees p q,
        ),
        owner,
      )

  drop-ClientsFit :
      (p : String) → ClientsFit host peers clients → ClientsFit host (remove peers p) clients
  drop-ClientsFit p h q k found = h q k (ground (arith, get-remove peers p q))

forget_hash-Consumes : (o : Option String) → Consumes (forget_hash o)
forget_hash-Consumes none = Consumes-pure tt
forget_hash-Consumes (some hash) = Consumes-modify _

answer-Consumes : (peer : PeerId) (ack : Ack) → Consumes (answer peer ack)
unfolding answer
answer-Consumes peer ack = Consumes-emit _

module _ (host : Host) where
  register_hash-Consumes :
      (peer : PeerId) (request : Request) (msg : NewProxy) (hash : String) (o : Option ClientInfo)
      → Consumes (register_hash host peer request msg hash o)
  register_hash-Consumes peer request msg hash (some c) = answer-Consumes peer _
  register_hash-Consumes peer request msg hash none =
      Consumes-bind _ _ (Consumes-modify _)
        (λ _. Consumes-bind _ _ (Consumes-modify _) (λ _. answer-Consumes peer _))

module _ (host : Host) {floor : ℕ} where
  -- With the peer's entry gone, no other peer is listed with its hash.
  forget_hash-Sound :
      (o : Option String) (p : String) (w : World)
      → get w.shared.client_peer_map p ≡ o
      → Sound (Fits host floor) w
      → Sound (Fits host floor) (forget_hash o (record w { shared = (take_peer p w.shared).1 })).1
  unfolding pure modify
  forget_hash-Sound none p w e h = (fits, h.1, h.2)
    where
      fits : Fits host floor (take_peer p w.shared).1
      fits = record {
        sessions = h.0.sessions;
        circuits = h.0.circuits;
        channels = h.0.channels;
        probes = h.0.probes;
        clients = drop-ClientsFit host _ w.shared.client_wn_map p h.0.clients;
      }
  forget_hash-Sound (some hash) p w e h = (fits, h.1, h.2)
    where
      fits :
          Fits host floor
            (record (take_peer p w.shared).1 { client_wn_map = remove w.shared.client_wn_map hash })
      fits = record {
        sessions = h.0.sessions;
        circuits = h.0.circuits;
        channels = h.0.channels;
        probes = h.0.probes;
        clients =
            remove-ClientsFit host w.shared.client_peer_map w.shared.client_wn_map p hash
              h.0.clients e;
      }

  pub unregister-Keeps : (peer : PeerId) → Keeps (Fits host floor) (unregister host peer)
  unfolding unregister ◌>>=◌
  unregister-Keeps peer = record {
    at = λ w h.
        forget_hash-Sound (get w.shared.client_peer_map (to_base58 host peer)) (to_base58 host peer)
          w refl h;
    consumes =
        Consumes-bind _ _ (Consumes-modifies (take_peer (to_base58 host peer)))
          forget_hash-Consumes;
  }

  pub answer-Keeps : (peer : PeerId) (ack : Ack) → Keeps (Fits host floor) (answer peer ack)
  unfolding answer
  answer-Keeps peer ack = Keeps-emit _

  -- Between the two writes of a registration no other task runs.
  register_hash-Sound :
      (peer : PeerId) (request : Request) (msg : NewProxy) (hash : String) (o : Option ClientInfo)
      (w : World)
      → get w.shared.client_wn_map hash ≡ o
      → Sound (Fits host floor) w
      → Sound (Fits host floor) (register_hash host peer request msg hash o w).1
  unfolding ◌>>=◌
  register_hash-Sound peer request msg hash (some c) w e h = (answer-Keeps peer _).at w h
  register_hash-Sound peer request msg hash none w e h = (answer-Keeps peer _).at _ (fits, h.1, h.2)
    where
      s : Shared
      s = w.shared

      fits : Fits host floor (record s {
        client_peer_map = insert s.client_peer_map (to_base58 host peer) hash;
        client_wn_map = insert s.client_wn_map hash (client_of host peer msg);
      })
      fits = record {
        sessions = h.0.sessions;
        circuits = h.0.circuits;
        channels = h.0.channels;
        probes = h.0.probes;
        clients =
            insert-ClientsFit host s.client_peer_map s.client_wn_map (to_base58 host peer) hash
              (client_of host peer msg) h.0.clients e refl;
      }

  pub register-Keeps :
      (peer : PeerId) (request : Request) → Keeps (Fits host floor) (register host peer request)
  unfolding register
  register-Keeps peer request = Keeps-bind _ _ (Keeps-unwrap _) (λ msg.
      Keeps-bind _ _ (Keeps-unwrap _) (λ hash.
        Keeps-bind-reads _ _ (register_hash-Consumes host peer request msg hash) (λ w h.
          register_hash-Sound peer request msg hash (get w.shared.client_wn_map hash) w refl h)))

pub ruleset client_rules = (unregister-Keeps, answer-Keeps, register-Keeps)
