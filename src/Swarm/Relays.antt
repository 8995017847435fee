-- ===== src/Swarm/Relays.antt =====
-- network/protocols/relay_behaviour.rs: the behaviour that hands the relay streams to the node, and the
-- streams to open to libp2p. The front of a queue is the head of its list.
use white_noise_rs.Prelude.{
  String, ◌≡◌, refl, Option, none, some, List, [], ◌∷◌, ◌++◌, ◌∙◌, ap, sym,
}
use white_noise_rs.HashMap.{HashMap, get}
use white_noise_rs.Host.{PeerId, peer_eq}
use white_noise_rs.State.{WrappedStream}
use white_noise_rs.Swarm.{RelayEvent, relay_inbound, relay_outbound, relay_disconnect}

pub record Relay : Type 0 where
  pub out_events : List RelayEvent
  pub dive_events : List PeerId
  pub addresses : HashMap PeerId (List String)
  -- the streams that a task of its own runs start_poll for, the newest first
  pub polls : List WrappedStream

-- RelayHandlerOutEvent, with the stream as from_neg_to_wraped builds it.
pub data RelayHandlerOutEvent : Type 0 where
  handler_inbound handler_outbound : WrappedStream → RelayHandlerOutEvent

pub data Poll : Type 0 where
  generate_event : RelayEvent → Poll
  notify_dial : PeerId → Poll
  pending : Poll

unfoldable pub new_stream : PeerId → Relay → Relay
new_stream peer_id r = record r { dive_events = r.dive_events ++ peer_id ∷ [] }

abbrev pub or_no_addresses : Option (List String) → List String
or_no_addresses none = []
or_no_addresses (some l) = l

unfoldable pub addresses_of_peer : PeerId → Relay → List String
addresses_of_peer peer_id r = or_no_addresses (get r.addresses peer_id)

unfoldable pub inject_disconnected : PeerId → Relay → Relay
inject_disconnected peer_id r = record r { out_events = relay_disconnect peer_id ∷ r.out_events }

-- The new stream gets its task.
abbrev pub from_neg_to_wraped : WrappedStream → Relay → Relay
from_neg_to_wraped x r = record r { polls = x ∷ r.polls }

unfoldable pub inject_event : RelayHandlerOutEvent → Relay → Relay
inject_event (handler_inbound x) r = record (from_neg_to_wraped x r) {
  out_events = relay_inbound x ∷ r.out_events;
}
inject_event (handler_outbound x) r = record (from_neg_to_wraped x r) {
  out_events = relay_outbound x ∷ r.out_events;
}

module _ {A : Type 0} where
  abbrev pub behind : A → Option (A × List A) → Option (A × List A)
  behind x none = some (x, [])
  behind x (some (last, rest)) = some (last, x ∷ rest)

  -- VecDeque::pop_back
  unfoldable pub pop_back : List A → Option (A × List A)
  pop_back [] = none
  pop_back (x ∷ xs) = behind x (pop_back xs)

  abbrev pub pop_front : List A → Option (A × List A)
  pop_front [] = none
  pop_front (x ∷ xs) = some (x, xs)

abbrev pub poll_dive : Option (PeerId × List PeerId) → Relay → Poll × Relay
poll_dive none r = (pending, r)
poll_dive (some (x, rest)) r = (notify_dial x, record r { dive_events = rest })

abbrev pub poll_out : Option (RelayEvent × List RelayEvent) → Relay → Poll × Relay
poll_out none r = poll_dive (pop_front r.dive_events) r
poll_out (some (e, rest)) r = (generate_event e, record r { out_events = rest })

unfoldable pub poll : Relay → Poll × Relay
poll r = poll_out (pop_back r.out_events) r

-- What the behaviour promises: two queues, the events before the streams to open, the oldest first.
module _ {A : Type 0} where
  abbrev pub oldest_first : List A → List A
  oldest_first [] = []
  oldest_first (x ∷ xs) = oldest_first xs ++ x ∷ []

  abbrev ordered : Option (A × List A) → List A
  ordered none = []
  ordered (some (last, rest)) = last ∷ oldest_first rest

  ordered-behind : (x : A) (o : Option (A × List A)) → ordered o ++ x ∷ [] ≡ ordered (behind x o)
  ordered-behind x none = refl
  ordered-behind x (some (last, rest)) = refl

  ordered-pop_back : (l : List A) → oldest_first l ≡ ordered (pop_back l)
  unfolding pop_back
  ordered-pop_back [] = refl
  ordered-pop_back (x ∷ xs) = rw (ordered-pop_back xs) (ordered-behind x (pop_back xs))

abbrev pub Queues : Type 0
Queues = List RelayEvent × List PeerId

abbrev pub queues : Relay → Queues
queues r = (oldest_first r.out_events, r.dive_events)

abbrev pub next_of : Queues → Poll × Queues
next_of ([], []) = (pending, ([], []))
next_of ([], x ∷ dials) = (notify_dial x, ([], dials))
next_of (e ∷ events, dials) = (generate_event e, (events, dials))

dive_ordered :
    (d : List PeerId) (r : Relay)
    → r.dive_events ≡ d
    → oldest_first r.out_events ≡ []
    → (let p = poll_dive (pop_front d) r in (p.0, queues p.1)) ≡ next_of ([], d)
dive_ordered [] r q e = λ i. (pending, (e i, q i))
dive_ordered (x ∷ rest) r q e = λ i. (notify_dial x, (e i, rest))

next_ordered :
    (o : Option (RelayEvent × List RelayEvent)) (r : Relay)
    → oldest_first r.out_events ≡ ordered o
    → (let p = poll_out o r in (p.0, queues p.1)) ≡ next_of (ordered o, r.dive_events)
next_ordered none r e = dive_ordered r.dive_events r refl e
next_ordered (some (last, rest)) r e = refl

module _ (r : Relay) (x : WrappedStream) (peer : PeerId) where
  -- The behaviour is two queues, one of events and one of peers to dial: a new stream or a disconnection goes
  -- to the end of the first, a peer to dial to the end of the second, and a poll takes the oldest event, or,
  -- if there is none, the oldest peer to dial.
  pub poll_first_in_first_out :
      (queues (inject_event (handler_inbound x) r)
        ≡ ((queues r).0 ++ relay_inbound x ∷ [], (queues r).1))
      × (queues (inject_event (handler_outbound x) r)
          ≡ ((queues r).0 ++ relay_outbound x ∷ [], (queues r).1))
      × (queues (inject_disconnected peer r)
          ≡ ((queues r).0 ++ relay_disconnect peer ∷ [], (queues r).1))
      × (queues (new_stream peer r) ≡ ((queues r).0, (queues r).1 ++ peer ∷ []))
      × (((poll r).0, queues (poll r).1) ≡ next_of (queues r))
  unfolding inject_event inject_disconnected new_stream poll
  poll_first_in_first_out =
      let o = ordered-pop_back r.out_events in
      (
        refl,
        refl,
        refl,
        refl,
        next_ordered (pop_back r.out_events) r o ∙ ap (λ q. next_of (q, r.dive_events)) (sym o),
      )
