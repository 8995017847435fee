-- ===== src/Node/Streams.antt =====
-- network/node.rs: wait_for_out_peer_relay_stream, wait_for_relay_stream and new_relay_stream. A
-- queue of streams is a list with its front first.
use white_noise_rs.Prelude.{
  ℕ, zero, suc, ◌+◌, Option, none, some, List, [], ◌∷◌, ◌++◌, length, leb, ◌==◌, if◌then◌else◌,
}
use white_noise_rs.Host.{PeerId, peer_eq}
use white_noise_rs.State.{WrappedStream, Shared, new_stream_request}
use white_noise_rs.Task.{
  Task, spawn_node_request, pure, out_of_fuel, modifies, emit, sleep, ◌>>=◌, ◌>>◌,
}

-- The inner loop: as many rounds as the queue was long, each of which pops a stream and, if it is not
-- the wanted one, pushes it back.
unfoldable pub scan : ℕ → PeerId → List WrappedStream → Option WrappedStream × List WrappedStream
scan zero peer_id queue = (none, queue)
scan (suc n) peer_id [] = scan n peer_id []
scan (suc n) peer_id (relay_stream ∷ queue) =
    let rest = scan n peer_id (queue ++ relay_stream ∷ []) in
    if relay_stream.remote_peer_id == peer_id then (some relay_stream, queue) else rest

unfoldable pub scan_out : PeerId → Shared → Option WrappedStream × Shared
unfolding scan
scan_out peer_id s =
    let (found, queue) = scan (length s.relay_out_streams) peer_id s.relay_out_streams in
    (found, record s { relay_out_streams = queue })

-- The outer loop; `wait_time` is in milliseconds.
unfoldable pub wait_out : ℕ → ℕ → PeerId → Task (Option WrappedStream)
wait_out zero wait_time peer_id = out_of_fuel
wait_out (suc fuel) wait_time peer_id =
    let round = (do
      found ← modifies (scan_out peer_id)
      elim found [
        | some relay_stream ↦ pure (some relay_stream)
        | none ↦ (do sleep; wait_out fuel (wait_time + 50) peer_id)
      ]) in
    if leb 5000 wait_time then pure none else round

abbrev pub wait_rounds : ℕ
wait_rounds = 101

unfoldable pub wait_for_out_peer_relay_stream : PeerId → Task (Option WrappedStream)
wait_for_out_peer_relay_stream peer_id = wait_out wait_rounds 0 peer_id

abbrev pub pop_in : List WrappedStream → Shared → Option WrappedStream × Shared
pop_in [] s = (none, s)
pop_in (relay_stream ∷ queue) s = (some relay_stream, record s { relay_in_streams = queue })

-- This loop polls for ever; the fuel bounds the rounds that are looked at.
unfoldable pub wait_for_relay_stream : ℕ → Task WrappedStream
wait_for_relay_stream zero = out_of_fuel
wait_for_relay_stream (suc fuel) = do
  found ← modifies (λ s. pop_in s.relay_in_streams s)
  elim found [
    | some relay_stream ↦ pure relay_stream
    | none ↦ (do sleep; wait_for_relay_stream fuel)
  ]

-- The request goes out in a task of its own.
unfoldable pub new_relay_stream : PeerId → Task (Option WrappedStream)
new_relay_stream peer_id = do
  emit (spawn_node_request (new_stream_request (record { peer_id = peer_id })))
  wait_for_out_peer_relay_stream peer_id
