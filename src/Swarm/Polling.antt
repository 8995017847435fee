-- ===== src/Swarm/Polling.antt =====
-- network/protocols/relay_behaviour.rs: start_poll, the task that writes a stream and reads it. Each round of
-- its loop is what `select!` comes to; the lists have the newest first.
use white_noise_rs.Utils.Limit.{limited, limited-within, limited-over}
use white_noise_rs.Prelude.{
  Option, none, some, length, ◌<◌, ◌≤◌, refl, ◌∙◌, sym, ℕ, ◌+◌, ◌≡◌, Bool, true, false, List, [],
  ◌∷◌, ◌++◌, append_assoc, append-nil, arith,
}
use white_noise_rs.Swarm.Relays.{oldest_first}

pub data Selected : Type 0 where
  -- all senders of the outbound channel are gone, or WrapedData::Close comes out of it
  senders_gone close : Selected
  -- WrapedData::Data, and whether libp2p can write it
  write : List ℕ → Bool → Selected
  -- upgrade::read_one, within its limit
  read_one : List ℕ → Selected
  read_failed : Selected

-- `spawned` has the messages that a task of their own each delivers to the reader.
pub record Wire : Type 0 where
  pub written : List (List ℕ)
  pub spawned : List (List ℕ)
  pub errors : ℕ
  pub closed : Bool

-- `crashed` is the panic of `unwrap`.
pub data Ended : Type 0 where
  running broke crashed : Ended

unfoldable pub poll_step : Selected → Wire → Ended × Wire
poll_step senders_gone w = (broke, record w { errors = w.errors + 1; closed = true })
poll_step close w = (broke, record w { errors = w.errors + 1; closed = true })
poll_step (write x true) w = (running, record w { written = x ∷ w.written })
poll_step (write x false) w = (crashed, w)
poll_step (read_one []) w = (broke, record w { errors = w.errors + 1 })
poll_step (read_one (b ∷ x)) w = (running, record w { spawned = (b ∷ x) ∷ w.spawned })
poll_step read_failed w = (broke, record w { errors = w.errors + 1 })

unfoldable pub start_poll : List Selected → Wire → Ended × Wire
start_poll [] w = (running, w)
start_poll (x ∷ xs) w =
    let (e, v) = poll_step x w in
    elim e [ running ↦ start_poll xs v | broke ↦ (broke, v) | crashed ↦ (crashed, v) ]

-- The messages that are written and read before the loop ends, in their order.
abbrev pub writes_of : List Selected → List (List ℕ)
writes_of [] = []
writes_of (write x true ∷ xs) = x ∷ writes_of xs
writes_of (read_one (b ∷ x) ∷ xs) = writes_of xs
writes_of (_ ∷ xs) = []

abbrev pub reads_of : List Selected → List (List ℕ)
reads_of [] = []
reads_of (write x true ∷ xs) = reads_of xs
reads_of (read_one (b ∷ x) ∷ xs) = (b ∷ x) ∷ reads_of xs
reads_of (_ ∷ xs) = []

abbrev pub errors_of : Ended → ℕ
errors_of broke = 1
errors_of _ = 0

-- The stream is written in the order of the outbound channel up to the end of the loop, and the messages that
-- are read up to there are handed on; the reader gets exactly one error if the loop ends with a `break`, and
-- none if it goes on or if a write fails, which ends it with a panic.
pub start_poll_orders :
    (inputs : List Selected) (w : Wire)
    → let r = start_poll inputs w in
      (oldest_first r.1.written ≡ oldest_first w.written ++ writes_of inputs)
      × (oldest_first r.1.spawned ≡ oldest_first w.spawned ++ reads_of inputs)
      × (r.1.errors ≡ w.errors + errors_of r.0)
unfolding start_poll poll_step
start_poll_orders [] w = (sym (append-nil _), sym (append-nil _), omega arith)
start_poll_orders (senders_gone ∷ xs) w = (sym (append-nil _), sym (append-nil _), omega arith)
start_poll_orders (close ∷ xs) w = (sym (append-nil _), sym (append-nil _), omega arith)
start_poll_orders (write x true ∷ xs) w =
    let v = record w { written = x ∷ w.written } in
    let h = start_poll_orders xs v in
    (h.0 ∙ append_assoc (oldest_first w.written) (x ∷ []) (writes_of xs), h.1, h.2)
start_poll_orders (write x false ∷ xs) w = (sym (append-nil _), sym (append-nil _), omega arith)
start_poll_orders (read_one [] ∷ xs) w = (sym (append-nil _), sym (append-nil _), omega arith)
start_poll_orders (read_one (b ∷ x) ∷ xs) w =
    let v = record w { spawned = (b ∷ x) ∷ w.spawned } in
    let h = start_poll_orders xs v in
    (h.0, h.1 ∙ append_assoc (oldest_first w.spawned) ((b ∷ x) ∷ []) (reads_of xs), h.2)
start_poll_orders (read_failed ∷ xs) w = (sym (append-nil _), sym (append-nil _), omega arith)

-- The message of that length comes in: what `read_one` makes of it.
abbrev pub select_read : Option (List ℕ) → Selected
select_read none = read_failed
select_read (some msg) = read_one msg

abbrev pub newest : List (List ℕ) → Option (List ℕ)
newest [] = none
newest (msg ∷ rest) = some msg

-- What WrappedStream::read gives for a message that comes in; `none` is its error.
unfoldable pub delivered : List ℕ → Option (List ℕ)
delivered msg =
    newest
      (poll_step (select_read (limited msg))
        (record { written = []; spawned = []; errors = 0; closed = false })).1.spawned

-- A message of one byte to the limit is delivered whole.
pub delivered-within :
    (msg : List ℕ) → 0 < length msg → length msg ≤ 4096 → delivered msg ≡ some msg
unfolding delivered poll_step
delivered-within [] some_byte h = absurd (omega arith)
delivered-within (b ∷ msg) some_byte h = rw (limited-within (b ∷ msg) h) refl

-- A longer one ends the stream.
pub delivered-over : (msg : List ℕ) → 4096 < length msg → delivered msg ≡ none
unfolding delivered poll_step
delivered-over msg h = rw (limited-over msg h) refl
