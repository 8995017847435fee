-- ===== src/Invariant/Peers.antt =====
-- The search for the next node of a circuit keeps the invariant.
use white_noise_rs.Prelude.{
  ℕ, zero, suc, String, Bool, true, false, Option, none, some, List, length,
}
use white_noise_rs.HashMap.{HashMap}
use white_noise_rs.Proto.{NodeInfo}
use white_noise_rs.Host.{Host, PeerId}
use white_noise_rs.State.{WrappedStream}
use white_noise_rs.Task.{Task}
use white_noise_rs.Task.Keeps.{Keeps, keeps_rules, Keeps-bind, Keeps-pure, Keeps-draw, Keeps-unwrap}
use white_noise_rs.Peers.{
  random_peer, or_random, is_other_client, is_candidate, pick_peer, try_peers,
}
use white_noise_rs.Invariant.Updates.{Fits}
use white_noise_rs.Invariant.Sessions.{new_session_to_peer-Keeps}

module _ (host : Host) {floor : ℕ} where
  pub random_peer-Keeps : Keeps (Fits host floor) (random_peer host)
  unfolding random_peer
  random_peer-Keeps = search keeps_rules

  or_random-Keeps : (o : Option PeerId) → Keeps (Fits host floor) (or_random host o)
  or_random-Keeps none = random_peer-Keeps
  or_random-Keeps (some p) = Keeps-pure p

  is_other_client-Keeps :
      (destination : String) (o : Option String)
      → Keeps (Fits host floor) (is_other_client host destination o)
  is_other_client-Keeps destination none = Keeps-pure true
  is_other_client-Keeps destination (some registered) = search keeps_rules

  is_candidate-Keeps :
      (invalid : HashMap String Bool) (avoid destination id : String)
      → Keeps (Fits host floor) (is_candidate host invalid avoid destination id)
  unfolding is_candidate
  is_candidate-Keeps invalid avoid destination id =
      search (keeps_rules, or_random-Keeps, is_other_client-Keeps) depth 12

  module _ (nodeinfos : List NodeInfo) (avoid destination : String) where
    pick_or_go_on :
        (b : Bool) (found again : Task PeerId)
        → Keeps (Fits host floor) found
        → Keeps (Fits host floor) again
        → Keeps (Fits host floor) (elim b [ true ↦ found | false ↦ again ])
    pick_or_go_on true found again kf ka = kf
    pick_or_go_on false found again kf ka = ka

    pick_peer-Keeps :
        (n : ℕ) (invalid : HashMap String Bool) (index : ℕ) (current : PeerId)
        → Keeps
            (Fits host floor)
            (pick_peer host nodeinfos avoid destination n invalid index current)
    unfolding pick_peer
    pick_peer-Keeps zero invalid index current = Keeps-pure current
    pick_peer-Keeps (suc n) invalid index current = Keeps-bind _ _ (Keeps-unwrap _) (λ info.
        Keeps-bind _ _ (is_candidate-Keeps invalid avoid destination info.id)
          (λ fits. pick_or_go_on fits _ _ (Keeps-unwrap _) (pick_peer-Keeps n invalid _ current)))

    found_or_retry :
        (o : Option WrappedStream) (retry found : Task (Option PeerId))
        → Keeps (Fits host floor) retry
        → Keeps (Fits host floor) found
        → Keeps (Fits host floor) (elim o [ none ↦ retry | some stream ↦ found ])
    found_or_retry none retry found kr kf = kr
    found_or_retry (some stream) retry found kr kf = kf

    pub try_peers-Keeps :
        (n : ℕ) (invalid : HashMap String Bool) (current : PeerId) (id : String) (mine other : ℕ)
        → Keeps
            (Fits host floor)
            (try_peers host nodeinfos avoid destination n invalid current id mine other)
    unfolding try_peers
    try_peers-Keeps zero invalid current id mine other = Keeps-pure none
    try_peers-Keeps (suc n) invalid current id mine other = Keeps-bind _ _ Keeps-draw (λ index.
        Keeps-bind _ _ (pick_peer-Keeps (length nodeinfos) invalid _ current) (λ join.
          Keeps-bind _ _ (new_session_to_peer-Keeps host join id mine other)
            (λ o. found_or_retry o _ _ (try_peers-Keeps n _ join id mine other) (Keeps-pure _))))
