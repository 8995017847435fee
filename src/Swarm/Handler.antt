-- ===== src/Swarm/Handler.antt =====
-- network/protocols/relay_protocol.rs: the handler of one connection, which hands on the streams that libp2p
-- has negotiated and asks it for new ones. A NegotiatedSubstream is a number that names it.
use white_noise_rs.Prelude.{
  ℕ, zero, suc, ◌≡◌, refl, Option, none, some, List, [], ◌∷◌, ◌++◌, map, length, ap, ◌∙◌,
  append-nil, append_assoc,
}
use white_noise_rs.Host.{PeerId}

pub data RelayHandlerInEvent : Type 0 where
  dial : PeerId → RelayHandlerInEvent

-- ProtocolsHandlerEvent, as far as the handler makes it: RelayHandlerOutEvent, and a request of a substream.
pub data RelayHandlerOutEvent : Type 0 where
  relay_inbound relay_outbound : ℕ → RelayHandlerOutEvent
  outbound_substream_request : RelayHandlerOutEvent

pub record RelayHandler : Type 0 where
  pub inbound : List ℕ
  pub outbound : List ℕ
  pub events : List RelayHandlerInEvent

unfoldable pub new_handler : RelayHandler
new_handler = record { inbound = []; outbound = []; events = [] }

unfoldable pub inject_fully_negotiated_inbound : ℕ → RelayHandler → RelayHandler
inject_fully_negotiated_inbound stream h = record h { inbound = h.inbound ++ stream ∷ [] }

unfoldable pub inject_fully_negotiated_outbound : ℕ → RelayHandler → RelayHandler
inject_fully_negotiated_outbound stream h = record h { outbound = h.outbound ++ stream ∷ [] }

unfoldable pub inject_in_event : RelayHandlerInEvent → RelayHandler → RelayHandler
inject_in_event x h = record h { events = h.events ++ x ∷ [] }

abbrev poll_events :
    List RelayHandlerInEvent → RelayHandler → Option RelayHandlerOutEvent × RelayHandler
poll_events [] h = (none, h)
poll_events (x ∷ events) h = (some outbound_substream_request, record h { events = events })

abbrev poll_outbound : List ℕ → RelayHandler → Option RelayHandlerOutEvent × RelayHandler
poll_outbound [] h = poll_events h.events h
poll_outbound (stream ∷ outbound) h =
    (some (relay_outbound stream), record h { outbound = outbound })

abbrev poll_inbound : List ℕ → RelayHandler → Option RelayHandlerOutEvent × RelayHandler
poll_inbound [] h = poll_outbound h.outbound h
poll_inbound (stream ∷ inbound) h = (some (relay_inbound stream), record h { inbound = inbound })

-- `none` is Poll::Pending.
unfoldable pub poll_handler : RelayHandler → Option RelayHandlerOutEvent × RelayHandler
poll_handler h = poll_inbound h.inbound h

-- Polls until the handler has nothing more; what it gave.
abbrev pub polls : ℕ → RelayHandler → List (Option RelayHandlerOutEvent)
polls zero h = []
polls (suc n) h = (poll_handler h).0 ∷ polls n (poll_handler h).1

-- What the handler still has to give, in the order in which it will.
abbrev pub pending : RelayHandler → List RelayHandlerOutEvent
pending h =
    map relay_inbound h.inbound
    ++ (map relay_outbound h.outbound ++ map (λ x. outbound_substream_request) h.events)

polls-pending :
    (inbound outbound : List ℕ) (events : List RelayHandlerInEvent)
    → let h : RelayHandler = record { inbound = inbound; outbound = outbound; events = events } in
      polls (suc (length (pending h))) h ≡ map some (pending h) ++ none ∷ []
unfolding poll_handler
polls-pending [] [] [] = refl
polls-pending [] [] (x ∷ events) =
    ap (λ l. some outbound_substream_request ∷ l) (polls-pending [] [] events)
polls-pending [] (stream ∷ outbound) events =
    ap (λ l. some (relay_outbound stream) ∷ l) (polls-pending [] outbound events)
polls-pending (stream ∷ inbound) outbound events =
    ap (λ l. some (relay_inbound stream) ∷ l) (polls-pending inbound outbound events)

-- What libp2p and the behaviour hand to the handler.
pub data Handed : Type 0 where
  negotiated_inbound negotiated_outbound : ℕ → Handed
  asked : RelayHandlerInEvent → Handed

abbrev pub hand : Handed → RelayHandler → RelayHandler
hand (negotiated_inbound stream) h = inject_fully_negotiated_inbound stream h
hand (negotiated_outbound stream) h = inject_fully_negotiated_outbound stream h
hand (asked x) h = inject_in_event x h

abbrev pub hand_all : List Handed → RelayHandler → RelayHandler
hand_all [] h = h
hand_all (x ∷ xs) h = hand_all xs (hand x h)

abbrev pub inbounds : List Handed → List ℕ
inbounds [] = []
inbounds (negotiated_inbound stream ∷ xs) = stream ∷ inbounds xs
inbounds (negotiated_outbound stream ∷ xs) = inbounds xs
inbounds (asked x ∷ xs) = inbounds xs

abbrev pub outbounds : List Handed → List ℕ
outbounds [] = []
outbounds (negotiated_inbound stream ∷ xs) = outbounds xs
outbounds (negotiated_outbound stream ∷ xs) = stream ∷ outbounds xs
outbounds (asked x ∷ xs) = outbounds xs

abbrev pub dials : List Handed → List RelayHandlerInEvent
dials [] = []
dials (negotiated_inbound stream ∷ xs) = dials xs
dials (negotiated_outbound stream ∷ xs) = dials xs
dials (asked x ∷ xs) = x ∷ dials xs

hand_all-queues :
    (xs : List Handed) (h : RelayHandler)
    → hand_all xs h ≡ record {
      inbound = h.inbound ++ inbounds xs;
      outbound = h.outbound ++ outbounds xs;
      events = h.events ++ dials xs;
    }
unfolding inject_fully_negotiated_inbound inject_fully_negotiated_outbound inject_in_event
hand_all-queues [] h = simp append-nil
hand_all-queues (negotiated_inbound stream ∷ xs) h =
    hand_all-queues xs (hand (negotiated_inbound stream) h) ∙ simp append_assoc
hand_all-queues (negotiated_outbound stream ∷ xs) h =
    hand_all-queues xs (hand (negotiated_outbound stream) h) ∙ simp append_assoc
hand_all-queues (asked x ∷ xs) h = hand_all-queues xs (hand (asked x) h) ∙ simp append_assoc

-- Whatever is handed to a new handler, in whatever order: polled until it has nothing more, it gives every
-- inbound stream, then every outbound stream, both in their order, and then one request of a substream
-- for each stream that it was asked to dial.
pub handler_gives_all :
    (xs : List Handed)
    → let given =
        map relay_inbound (inbounds xs)
        ++ (map relay_outbound (outbounds xs)
            ++ map (λ x. outbound_substream_request) (dials xs)) in
      polls (suc (length given)) (hand_all xs new_handler) ≡ map some given ++ none ∷ []
unfolding new_handler
handler_gives_all xs =
    rw (hand_all-queues xs new_handler) (polls-pending (inbounds xs) (outbounds xs) (dials xs))
