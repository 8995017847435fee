-- ===== src/Sdk/Bootstrap.antt =====
-- sdk/host.rs and sdk/client.rs: the peer and the address that a bootstrap address gives.
use mathlib.Core.Option
use white_noise_rs.Prelude.{
  ℕ, String, Char, code, Bool, true, false, ◌≡◌, refl, Option, none, some, ltb, starts_with,
  if◌then◌else◌, arith, ◌==◌, ℕ_eq, ◌||◌, List,
}
use white_noise_rs.Host.{Host, PeerId}
use white_noise_rs.Peers.{peer_of_text}
use white_noise_rs.Swarm.{has_p2p}

-- '/'
abbrev slash : ℕ
slash = 47

abbrev or_whole : String → Option String → String
or_whole s none = s
or_whole s (some t) = t

-- What is behind the last slash; `none` if there is no slash.
unfoldable pub behind_slash : String → Option String
behind_slash String.[] = none
behind_slash (String.◌∷◌ c s) =
    let rest = behind_slash s in
    elim rest [ some t ↦ some t | none ↦ if code c == slash then some s else none ]

-- The last of the parts that `split('/')` gives.
unfoldable pub last_part : String → String
last_part s = or_whole s (behind_slash s)

-- `find("p2p")` and split_at(index - 1): no match; the text before the byte in front of the first match;
-- or a panic, where there is no such byte or it ends a character of more bytes.
pub data Cut : Type 0 where
  no_match out_of_bounds : Cut
  before : String → Cut

abbrev behind_char : Char → Cut → Cut
behind_char c no_match = no_match
behind_char c out_of_bounds = out_of_bounds
behind_char c (before s) = before (String.◌∷◌ c s)

unfoldable pub cut_p2p : String → Cut
cut_p2p String.[] = no_match
cut_p2p (String.◌∷◌ c s) =
    let rest = cut_p2p s in
    if starts_with "p2p" (String.◌∷◌ c s)
    then out_of_bounds
    else if starts_with "p2p" s
    then (if ltb (code c) 128 then before "" else out_of_bounds)
    else behind_char c rest

module _ (host : Host) where
  abbrev parsed_address : String → Cut → Option String
  parsed_address addr no_match = some addr
  parsed_address addr out_of_bounds = none
  parsed_address addr (before part) = if host.valid_addr part then some part else none

  -- The peer that a client asks for others; `none` is a panic.
  unfoldable pub bootstrap_peer : String → Option PeerId
  bootstrap_peer bootstrap_addr = peer_of_text host (last_part bootstrap_addr)

  -- What a node puts into its routing table; `none` is a panic.
  unfoldable pub bootstrap_entry : String → Option (PeerId × String)
  bootstrap_entry bootstrap_addr =
      Option.bind (peer_of_text host (last_part bootstrap_addr)) (λ peer.
        if host.valid_addr bootstrap_addr
        then Option.map (λ addr. (peer, addr))
            (parsed_address bootstrap_addr (cut_p2p bootstrap_addr))
        else none)

-- The first text, and then the second.
abbrev pub join : String → String → String
join String.[] t = t
join (String.◌∷◌ c s) t = String.◌∷◌ c (join s t)

starts_not :
    (a id : String) → has_p2p a ≡ false → starts_with "p2p" (join a (join "/p2p/" id)) ≡ false
unfolding starts_with has_p2p
starts_not String.[] id h = refl
starts_not (String.◌∷◌ c String.[]) id h = ground arith
starts_not (String.◌∷◌ c (String.◌∷◌ d String.[])) id h = ground arith
starts_not (String.◌∷◌ c (String.◌∷◌ d (String.◌∷◌ e a))) id h = ground arith

has_p2p-tail : (c : Char) (a : String) → has_p2p (String.◌∷◌ c a) ≡ false → has_p2p a ≡ false
unfolding has_p2p
has_p2p-tail c a h = ground arith

cut_p2p-join : (a id : String) → has_p2p a ≡ false → cut_p2p (join a (join "/p2p/" id)) ≡ before a
unfolding cut_p2p
cut_p2p-join String.[] id h = unfold starts_with in refl
cut_p2p-join (String.◌∷◌ c a) id h =
    rw (starts_not (String.◌∷◌ c a) id h)
      (rw (starts_not a id (has_p2p-tail c a h)) (rw (cut_p2p-join a id (has_p2p-tail c a h)) refl))

-- No slash in a text.
abbrev pub has_slash : String → Bool
has_slash String.[] = false
has_slash (String.◌∷◌ c s) = code c == slash || has_slash s

behind_slash-none : (s : String) → has_slash s ≡ false → behind_slash s ≡ none
unfolding behind_slash
behind_slash-none String.[] h = refl
behind_slash-none (String.◌∷◌ c s) h =
    let e : (code c == slash) ≡ false = ground arith in
    rw (behind_slash-none s (ground arith)) (rw e refl)

behind_slash-join :
    (a s : String) → has_slash s ≡ false → behind_slash (join a (join "/" s)) ≡ some s
unfolding behind_slash
behind_slash-join String.[] s h = rw (behind_slash-none s h) refl
behind_slash-join (String.◌∷◌ c a) s h = rw (behind_slash-join a s h) refl

join_assoc : (a b c : String) → join (join a b) c ≡ join a (join b c)
join_assoc String.[] b c = refl
join_assoc (String.◌∷◌ x a) b c = rw (join_assoc a b c)

last_part-join : (a id : String) → has_slash id ≡ false → last_part (join a (join "/p2p/" id)) ≡ id
unfolding last_part
last_part-join a id h =
    rw (← join_assoc a "/p2p" (join "/" id)) (rw (behind_slash-join (join a "/p2p") id h) refl)

-- A bootstrap address `a/p2p/id` with no "p2p" in `a` and no slash in `id`, where `id` is the text of a peer's
-- bytes and both `a` and the whole parse as addresses: a client asks that peer for others, and a node
-- puts it into its routing table under the address `a`.
pub bootstrap_address :
    (host : Host) (a id : String) (bytes : List ℕ)
    → has_p2p a ≡ false
    → has_slash id ≡ false
    → host.bs58_decode id ≡ some bytes
    → host.valid_peer bytes ≡ true
    → host.valid_addr a ≡ true
    → host.valid_addr (join a (join "/p2p/" id)) ≡ true
    → (bootstrap_peer host (join a (join "/p2p/" id)) ≡ some (record { bytes = bytes }))
      × (bootstrap_entry host (join a (join "/p2p/" id)) ≡ some ((record { bytes = bytes }), a))
unfolding bootstrap_peer bootstrap_entry peer_of_text Option.bind
bootstrap_address host a id bytes p s d v va vw =
    rw (last_part-join a id s) (rw d (rw v (rw vw (rw (cut_p2p-join a id p) (rw va (refl, refl))))))
