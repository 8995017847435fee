-- ===== src/Peers/Picking.antt =====
-- The inner loop of the search for the next node of a circuit: which node it may come to.
use white_noise_rs.Prelude.{◌≢◌, ◌∙◌, sym, is_some, arith}
use white_noise_rs.HashMap.{contains_key, contains_key_lem}
use white_noise_rs.Prelude.{
  ap, ℕ, zero, suc, String, Bool, Bool-cases, true, false, Option, none, some, List, length,
  get_elem?, ◌==◌, string_eq, ◌≡◌, refl, ◌⊎◌, inl, inr, if◌then◌else◌,
}
use white_noise_rs.HashMap.{HashMap, get}
use white_noise_rs.Proto.{NodeInfo}
use white_noise_rs.Host.{Host, PeerId, to_base58}
use white_noise_rs.Task.{Task, Flow, World, done, panicked, pure, reads, asks, ◌>>=◌}
use white_noise_rs.Utils.Ids.{from_whitenoise_to_hash}
use white_noise_rs.Node.Requests.{get_id}
use white_noise_rs.Peers.{
  next_index, peer_of_text, is_fresh, is_other_client, is_candidate, pick_peer, or_random,
}

option_cases : {A : Type 0} (o : Option A) → (o ≡ none) ⊎ ((a : A) × (o ≡ some a))
option_cases none = inl refl
option_cases (some a) = inr (a, refl)

no_value : {A : Type 0} (o : Option A) → is_some o ≡ false → o ≡ none
no_value none e = refl
no_value (some a) e = absurd cc

test-distinct : (a b : String) → (a == b) ≡ false → a ≢ b
test-distinct a b e = λ p. absurd (cc (sym ((string_eq.agrees a b).1 p) ∙ e))

module _ (host : Host) (nodeinfos : List NodeInfo) (avoid destination : String)
    (invalid : HashMap String Bool) (boot current : PeerId) (w : World)
    (known : w.local.boot_peer_id ≡ some boot) where
  abbrev Fresh : String → Type 0
  Fresh id = is_fresh host invalid (get_id host w.local) avoid (to_base58 host boot) id ≡ true

  -- What is registered for the peer, if anything is, has another hash than the client that is called.
  abbrev pub IsOtherClient : String → Type 0
  IsOtherClient id =
      (get w.shared.client_peer_map id ≡ none)
      ⊎ ((registered hash : String) × (get w.shared.client_peer_map id ≡ some registered)
          × (from_whitenoise_to_hash host registered ≡ some hash)
          × (hash ≢ destination))

  -- The node was not tried in vain before, takes no part yet, and is not the called client.
  abbrev pub IsFree : String → Type 0
  IsFree id =
      (get invalid id ≡ none)
      × (id ≢ get_id host w.local)
      × (id ≢ avoid)
      × (id ≢ to_base58 host boot)
      × IsOtherClient id

  Fresh-IsFree : (id : String) → Fresh id → IsOtherClient id → IsFree id
  Fresh-IsFree id fresh other =
      let untried : contains_key invalid id ≡ false = ground arith in
      let not_own : (id == get_id host w.local) ≡ false = ground arith in
      let not_avoid : (id == avoid) ≡ false = ground arith in
      let not_boot : (id == to_base58 host boot) ≡ false = ground arith in
      (
        no_value (get invalid id) (sym (contains_key_lem invalid id) ∙ untried),
        test-distinct id (get_id host w.local) not_own,
        test-distinct id avoid not_avoid,
        test-distinct id (to_base58 host boot) not_boot,
        other,
      )

  -- How the loop may end, none of which touches the world: a panic on a bad id, the peer that it began
  -- with, or the peer of a listed node that is free.
  abbrev pub Picked : Flow PeerId × World → Type 0
  Picked r =
      (r ≡ (panicked, w))
      ⊎ (r ≡ (done current, w))
      ⊎ ((j : ℕ) × (info : NodeInfo) × (p : PeerId) × (get_elem? nodeinfos j ≡ some info)
          × IsFree info.id
          × (peer_of_text host info.id ≡ some p)
          × (r ≡ (done p, w)))

  abbrev Judged : String → Type 0
  Judged id =
      let r = is_candidate host invalid avoid destination id w in
      (r ≡ (panicked, w)) ⊎ (r ≡ (done false, w)) ⊎ ((r ≡ (done true, w)) × IsFree id)

  tested : String → Task Bool
  tested id = reads (λ s. get s.client_peer_map id) >>= λ registered.
      is_other_client host destination registered

  candidate_known :
      (id : String)
      → is_candidate host invalid avoid destination id w
        ≡ (if is_fresh host invalid (get_id host w.local) avoid (to_base58 host boot) id
              then tested id
              else pure false)
            w
  unfolding is_candidate tested ◌>>=◌
  candidate_known id =
      ap
        (λ (o : Option PeerId).
          (or_random host o >>= λ b. asks (get_id host) >>= λ own.
          if is_fresh host invalid own avoid (to_base58 host b) id then tested id else pure false)
            w)
        known

  test_cases :
      (id : String)
      → (tested id w ≡ (panicked, w))
        ⊎ (tested id w ≡ (done false, w))
        ⊎ ((tested id w ≡ (done true, w)) × IsOtherClient id)
  unfolding tested pure ◌>>=◌
  test_cases id = elim (option_cases (get w.shared.client_peer_map id)) [
    | inl none_ ↦ inr (inr (rw none_ refl, inl none_))
    | inr (registered, e) ↦ elim (option_cases (from_whitenoise_to_hash host registered)) [
      | inl bad ↦ inl (rw e (rw bad refl))
      | inr (hash, h) ↦ elim (Bool-cases (hash == destination)) [
        | inl same ↦ inr (inl (rw e (rw h (rw same refl))))
        | inr other ↦ inr (
            inr (
              rw e (rw h (rw other refl)),
              inr (registered, hash, e, h, test-distinct hash destination other),
            ))
      ]
    ]
  ]

  judged : (id : String) → Judged id
  unfolding pure
  judged id =
      elim (Bool-cases
        (is_fresh host invalid (get_id host w.local) avoid (to_base58 host boot) id)) [
          | inr stale ↦ inr (inl (candidate_known id ∙ rw stale refl))
          | inl fresh ↦ elim (test_cases id) [
            | inl bad ↦ inl (candidate_known id ∙ rw fresh bad)
            | inr (inl rejected) ↦ inr (inl (candidate_known id ∙ rw fresh rejected))
            | inr (inr (accepted, other)) ↦
                inr (inr (candidate_known id ∙ rw fresh accepted, Fresh-IsFree id fresh other))
          ]
        ]

  pub pick_peer_fresh :
      (n index : ℕ) → Picked (pick_peer host nodeinfos avoid destination n invalid index current w)
  unfolding pick_peer ◌>>=◌
  pick_peer_fresh zero index = inr (inl refl)
  pick_peer_fresh (suc n) index =
      elim (option_cases (get_elem? nodeinfos (next_index index (length nodeinfos)))) [
        | inl missing ↦ rw missing (inl refl)
        | inr (info, e) ↦ rw e (elim (judged info.id) [
          | inl bad ↦ rw (bad, ◌>>=◌) (inl refl)
          | inr (inl rejected) ↦
              rw (rejected, ◌>>=◌) (pick_peer_fresh n (next_index index (length nodeinfos)))
          | inr (inr (accepted, fresh)) ↦
              rw (accepted, ◌>>=◌)
                (elim (option_cases (peer_of_text host info.id)) [
                  | inl bad ↦ rw bad (inl refl)
                  | inr (p, q) ↦
                      rw q (
                        inr (inr (next_index index (length nodeinfos), info, p, e, fresh, q, refl)))
                ])
        ])
      ]
