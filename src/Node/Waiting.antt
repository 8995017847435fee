-- ===== src/Node/Waiting.antt =====
-- network/node.rs: the wait for an outbound relay stream. What a scan of the queue finds and leaves,
-- and that the wait ends.
use white_noise_rs.Prelude.{
  ◌≢◌, subst, ℕ, zero, suc, ◌+◌, ◌*◌, ◌≤◌, ◌<◌, ◌≡◌, refl, ◌⊎◌, inl, inr, false, Option, none, some,
  List, [], ◌∷◌, ◌++◌, length, leb, ◌==◌, All, All-append, Bool-cases, append-nil, append_assoc,
  arith,
}
use white_noise_rs.Host.{PeerId, peer_eq}
use white_noise_rs.State.{WrappedStream}
use white_noise_rs.Task.{World, spent, Task, pure}
use white_noise_rs.Task.Consumes.{
  Consumes, Consumes-pure, Consumes-bind, Consumes-modifies, Consumes-wait_for,
}
use white_noise_rs.Node.Streams.{wait_rounds, scan, wait_out, wait_for_out_peer_relay_stream}

found_or_again :
    (o : Option WrappedStream) (again : Task (Option WrappedStream))
    → Consumes again
    → Consumes (elim o [ some stream ↦ pure (some stream) | none ↦ again ])
found_or_again none again k = k
found_or_again (some stream) again k = Consumes-pure _

-- With a round for each 50 ms up to 5 s, and one more, the fuel never runs out.
pub wait_out-Consumes :
    (fuel wait_time : ℕ) (peer_id : PeerId)
    → wait_time < 5050
    → 5050 ≤ wait_time + 50 * fuel
    → Consumes (wait_out fuel wait_time peer_id)
unfolding wait_out
wait_out-Consumes zero t peer_id h k = absurd (omega arith)
wait_out-Consumes (suc fuel) t peer_id h k = elim (Bool-cases (leb 5000 t)) [
  | inl late ↦ rw late (Consumes-pure none)
  | inr early ↦ rw early (
      Consumes-bind _ _ (Consumes-modifies _) (λ o. found_or_again o _ (
        Consumes-bind _ _ (Consumes-wait_for _)
          (λ _. wait_out-Consumes fuel (t + 50) peer_id (ground arith) (ground arith)))))
]

module _ (peer_id : PeerId) where
  abbrev Misses : List WrappedStream → Type 0
  Misses = All (λ s. (s.remote_peer_id == peer_id) ≡ false)

  -- What a scan may come to: it finds the first stream of the peer, and leaves the streams behind it
  -- in front of those that it passed; or no stream is the peer's, and the queue is as it was.
  abbrev pub Scanned : List WrappedStream → Option WrappedStream × List WrappedStream → Type 0
  Scanned queue r =
      ((r ≡ (none, queue)) × Misses queue)
      ⊎ ((passed : List WrappedStream) × (found : WrappedStream) × (rest : List WrappedStream)
          × (queue ≡ passed ++ found ∷ rest)
          × Misses passed
          × (found.remote_peer_id ≡ peer_id)
          × (r ≡ (some found, rest ++ passed)))

  scan_from :
      (ahead passed : List WrappedStream)
      → Misses passed
      → Scanned (passed ++ ahead) (scan (length ahead) peer_id (ahead ++ passed))
  unfolding scan
  scan_from [] passed h = rw (append-nil passed) (inl (refl, h))
  scan_from (s ∷ ahead) passed h = elim (Bool-cases (s.remote_peer_id == peer_id)) [
    | inl hit ↦
        rw hit
          (inr (passed, s, ahead, refl, h, (peer_eq.agrees s.remote_peer_id peer_id).0 hit, refl))
    | inr miss ↦
        rw (miss, append_assoc ahead passed (s ∷ []), ← append_assoc passed (s ∷ []) ahead)
          (scan_from ahead (passed ++ s ∷ []) (All-append _ passed (s ∷ []) h (miss, tt)))
  ]

  -- A scan takes the first stream of the peer out of the queue, if there is one, and loses none.
  pub scan_first : (queue : List WrappedStream) → Scanned queue (scan (length queue) peer_id queue)
  scan_first queue =
      subst (λ q. Scanned queue (scan (length queue) peer_id q)) (append-nil queue)
        (scan_from queue [] tt)

pub wait-Consumes : (peer_id : PeerId) → Consumes (wait_for_out_peer_relay_stream peer_id)
unfolding wait_for_out_peer_relay_stream
wait-Consumes peer_id = wait_out-Consumes wait_rounds 0 peer_id (omega arith) (omega arith)

-- The wait for a stream of a peer has an end: after 101 rounds at most it has a stream or gives up, or an
-- answer to a wait is missing, whatever is in the queue and whatever the other tasks do to it.
pub wait_for_out_ends :
    (peer_id : PeerId) (w : World) → (wait_for_out_peer_relay_stream peer_id w).0 ≢ spent
wait_for_out_ends peer_id w = (wait-Consumes peer_id).ends w
