-- ===== src/Task.antt =====
-- A task of the async runtime: Rust code that locks the node's shared maps, sends on channels, spawns
-- tasks, draws random numbers and waits. Between two waits it runs alone. What a wait meets is an
-- input: the answer, and what the other tasks have made of the shared maps in the meantime.
pub mod Keeps
pub mod Consumes
pub mod Ends
use white_noise_rs.Prelude.{
  ℕ, suc, ◌+◌, String, Bool, true, false, Option, none, some, List, [], ◌∷◌, if◌then◌else◌,
}
use white_noise_rs.Proto.{Ack, NodeInfo, Relay}
use white_noise_rs.State.{
  NodeProxyRequest, NodeCmdRequest, WrappedStream, Shared, Local, NodeRequest, CircuitConn,
}

-- What a task does outside the shared maps.
pub data Effect : Type 0 where
  -- out_sender.unbounded_send(WrapedData::Data(…)) and WrapedData::Close
  stream_write : WrappedStream → List ℕ → Effect
  stream_close : WrappedStream → Effect
  -- write_with_len_prefix on the NegotiatedSubstream of that name
  substream_write : ℕ → List ℕ → Effect
  -- node_request_sender.unbounded_send
  node_request : NodeRequest → Effect
  -- in_channel_sender.unbounded_send of the circuit's channel
  circuit_send : ℕ → List ℕ → Effect
  -- async_std::task::spawn
  spawn_node_request : NodeRequest → Effect
  spawn_write_relay : WrappedStream → Relay → Effect
  spawn_relay_handler : WrappedStream → Option String → Effect
  spawn_handshake : CircuitConn → Bool → String → Effect
  -- new_connected_sender.unbounded_send: a circuit is there
  announce : String → Effect
  -- println! of a chat message: who wrote it, and its data
  print_message : String → List ℕ → Effect
  -- a timer is set, in microseconds; the wait for it is a suspension point of its own
  timer : ℕ → Effect

pub data Answer : Type 0 where
  -- a oneshot channel: its value, or that its sender is gone
  resolved : Ack → Answer
  node_infos : List NodeInfo → Answer
  published : Bool → Answer
  cancelled : Answer
  -- a sleep is over
  elapsed : Answer
  -- a substream has taken a write, or not
  wrote : Bool → Answer
  -- a stream was read, or is closed or broken
  read_ok : List ℕ → Answer
  read_err : Answer
  -- the next message of a handler's channel, or that all its senders are gone
  proxied : Option NodeProxyRequest → Answer
  commanded : Option NodeCmdRequest → Answer
  gossiped : Option (List ℕ) → Answer
  -- the next message of a circuit's channel
  circuit_data : Option (List ℕ) → Answer
  -- a line of the terminal; at its end, or if it is no UTF-8, an empty one at once
  typed : List ℕ → Answer
  -- the next announced circuit
  next_session : Option String → Answer

pub record Input : Type 0 where
  pub answer : Answer
  pub others : Shared → Shared

-- `out` has the newest effect first. `entropy` is what the random generator gives. `seen` has the
-- shared maps as they were at each suspension point, the newest first: what the other tasks see.
pub record World : Type 0 where
  pub shared : Shared
  pub local : Local
  pub out : List Effect
  pub inputs : List Input
  pub entropy : ℕ → ℕ
  pub drawn : ℕ
  pub seen : List Shared

-- `panicked` is a panic, which ends the task; `waiting`: no input is left, or the next is no answer
-- to this wait; `spent`: the fuel of a loop is gone.
pub data Flow {ℓ} (A : Type ℓ) : Type ℓ where
  done : A → Flow A
  panicked waiting spent : Flow A

abbrev pub Task : Type 0 → Type 0
Task A = World → Flow A × World

module _ {A : Type 0} where
  unfoldable pub pure : A → Task A
  pure a w = (done a, w)

  unfoldable pub panic : Task A
  panic w = (panicked, w)

  unfoldable pub out_of_fuel : Task A
  out_of_fuel w = (spent, w)

  unfoldable pub block : Task A
  block w = (waiting, w)

  -- Option::unwrap and Result::unwrap
  unfoldable pub unwrap : Option A → Task A
  unfolding pure panic
  unwrap none = panic
  unwrap (some a) = pure a

  -- a read guard, held for one expression
  unfoldable pub reads : (Shared → A) → Task A
  reads f w = (done (f w.shared), w)

  unfoldable pub asks : (Local → A) → Task A
  asks f w = (done (f w.local), w)

  -- a write guard whose expression has a value
  unfoldable pub modifies : (Shared → A × Shared) → Task A
  modifies f w = let (a, s) = f w.shared in (done a, record w { shared = s })

unfoldable pub modify : (Shared → Shared) → Task (Unit {0})
modify f w = (done tt, record w { shared = f w.shared })

-- a field of this clone is set
unfoldable pub modify_local : (Local → Local) → Task (Unit {0})
modify_local f w = (done tt, record w { local = f w.local })

unfoldable pub emit : Effect → Task (Unit {0})
emit e w = (done tt, record w { out = e ∷ w.out })

unfoldable pub draw : Task ℕ
draw w = (done (w.entropy w.drawn), record w { drawn = suc w.drawn })

-- A new channel: its name.
unfoldable pub new_channel : Task ℕ
new_channel w = (
  done w.shared.next_channel,
  record w { shared = record w.shared { next_channel = suc w.shared.next_channel } },
)

abbrev pub resume : List Input → Task Answer
resume [] w = (waiting, w)
resume (i ∷ is) w = (done i.answer, record w { shared = i.others w.shared; inputs = is })

-- A suspension point.
unfoldable pub await : Task Answer
await w = resume w.inputs (record w { seen = w.shared ∷ w.seen })

module _ {A B : Type 0} where
  abbrev pub continue : Flow A → (A → Task B) → Task B
  continue (done a) f w = f a w
  continue panicked f w = (panicked, w)
  continue waiting f w = (waiting, w)
  continue spent f w = (spent, w)

  infixl 10 ◌>>=◌ ◌>>◌
  unfoldable pub ◌>>=◌ : Task A → (A → Task B) → Task B
  unfolding pure panic out_of_fuel block unwrap reads asks modifies modify emit draw new_channel
      await
  ◌>>=◌ m f w = let (r, w') = m w in continue r f w'

  abbrev pub ◌>>◌ : Task A → Task B → Task B
  m >> n = m >>= λ _. n

unfoldable pub when : Bool → Task (Unit {0}) → Task (Unit {0})
unfolding pure
when true m = m
when false m = pure tt

-- What a wait makes of the answer; `none` is an answer to some other wait.
unfoldable pub expect : {A : Type 0} → Option A → Task A
unfolding pure block
expect none = block
expect (some a) = pure a

-- A oneshot receiver: `none` if the sender is gone.
abbrev pub as_ack : Answer → Option (Option Ack)
as_ack (resolved a) = some (some a)
as_ack cancelled = some none
as_ack _ = none

abbrev pub as_node_infos : Answer → Option (Option (List NodeInfo))
as_node_infos (node_infos l) = some (some l)
as_node_infos cancelled = some none
as_node_infos _ = none

abbrev pub as_published : Answer → Option (Option Bool)
as_published (published b) = some (some b)
as_published cancelled = some none
as_published _ = none

abbrev pub as_elapsed : Answer → Option (Unit {0})
as_elapsed elapsed = some tt
as_elapsed _ = none

-- WrappedStream::read; `none` is an error.
abbrev pub as_read : Answer → Option (Option (List ℕ))
as_read (read_ok b) = some (some b)
as_read read_err = some none
as_read _ = none

-- `next` of the channels that the three handlers read.
abbrev pub as_proxied : Answer → Option (Option NodeProxyRequest)
as_proxied (proxied r) = some r
as_proxied _ = none

abbrev pub as_commanded : Answer → Option (Option NodeCmdRequest)
as_commanded (commanded r) = some r
as_commanded _ = none

abbrev pub as_gossiped : Answer → Option (Option (List ℕ))
as_gossiped (gossiped m) = some m
as_gossiped _ = none

abbrev pub as_circuit_data : Answer → Option (Option (List ℕ))
as_circuit_data (circuit_data m) = some m
as_circuit_data _ = none

abbrev pub as_typed : Answer → Option (List ℕ)
as_typed (typed line) = some line
as_typed _ = none

abbrev pub as_wrote : Answer → Option Bool
as_wrote (wrote b) = some b
as_wrote _ = none

abbrev pub as_next_session : Answer → Option (Option String)
as_next_session (next_session m) = some m
as_next_session _ = none

unfoldable pub wait_for : {A : Type 0} → (Answer → Option A) → Task A
wait_for view = do a ← await; expect (view a)

abbrev pub await_ack : Task (Option Ack)
await_ack = wait_for as_ack

abbrev pub await_node_infos : Task (Option (List NodeInfo))
await_node_infos = wait_for as_node_infos

abbrev pub await_published : Task (Option Bool)
await_published = wait_for as_published

abbrev pub sleep : Task (Unit {0})
sleep = wait_for as_elapsed

abbrev pub read : Task (Option (List ℕ))
read = wait_for as_read

abbrev pub next_proxied : Task (Option NodeProxyRequest)
next_proxied = wait_for as_proxied

abbrev pub next_commanded : Task (Option NodeCmdRequest)
next_commanded = wait_for as_commanded

abbrev pub next_gossiped : Task (Option (List ℕ))
next_gossiped = wait_for as_gossiped

abbrev pub next_circuit_data : Task (Option (List ℕ))
next_circuit_data = wait_for as_circuit_data
