-- ===== src/Sdk/Streams.antt =====
-- sdk/client.rs and sdk/host.rs: the tasks for the streams that come in.
use white_noise_rs.Prelude.{suc, ◌≡◌, refl, none, List, [], ◌∷◌, ◌++◌, length}
use white_noise_rs.State.{WrappedStream}
use white_noise_rs.Task.{
  Effect, Input, World, Flow, waiting, elapsed, spawn_relay_handler, wait_for, expect, ◌>>=◌,
}
use white_noise_rs.Node.Streams.{wait_for_relay_stream}
use white_noise_rs.Sdk.{process_new_stream}

-- One task for each stream, the last stream's first.
abbrev pub handlers : List WrappedStream → List Effect → List Effect
handlers [] out = out
handlers (stream ∷ queue) out = handlers queue (spawn_relay_handler stream none ∷ out)

-- At each end of a wait some more streams have come in, behind those that are there.
abbrev pub Arrivals : List Input → List (List WrappedStream) → Type 0
Arrivals [] [] = Unit
Arrivals (i ∷ is) (new ∷ arrivals) =
    (i.answer ≡ elapsed)
    × ((s : _) → (i.others s).relay_in_streams ≡ s.relay_in_streams ++ new)
    × Arrivals is arrivals
Arrivals _ _ = ⊥

abbrev pub all_of : List (List WrappedStream) → List WrappedStream
all_of [] = []
all_of (new ∷ arrivals) = new ++ all_of arrivals

-- Every stream of the list is served, and the loop waits for more.
abbrev pub Served : List WrappedStream → List Effect → Flow (Unit {0}) × World → Type 0
Served streams out r =
    (r.0 ≡ waiting) × (r.1.out ≡ handlers streams out) × (r.1.shared.relay_in_streams ≡ [])

serves :
    (inputs : List Input) (arrivals : List (List WrappedStream)) (queue : List WrappedStream)
    (w : World)
    → w.inputs ≡ inputs
    → Arrivals inputs arrivals
    → w.shared.relay_in_streams ≡ queue
    → Served
        (queue ++ all_of arrivals)
        w.out
        (process_new_stream (suc (length (queue ++ all_of arrivals))) w)
unfolding process_new_stream wait_for_relay_stream wait_for expect ◌>>=◌
serves inputs arrivals (stream ∷ queue) w p a e = rw e (
    serves inputs arrivals queue
      (record w {
        shared = record w.shared { relay_in_streams = queue };
        out = spawn_relay_handler stream none ∷ w.out;
      })
      p a refl)
serves [] [] [] w p a e = rw e (rw p (refl, refl, refl))
serves (i ∷ is) (new ∷ arrivals) [] w p (timed, came, a) e = rw e (
    rw p (
      rw timed (
        serves is arrivals new
          (record w {
            shared = i.others (record w.shared { relay_in_streams = [] });
            inputs = is;
            seen = record w.shared { relay_in_streams = [] } ∷ w.seen;
          })
          refl a (came (record w.shared { relay_in_streams = [] })))))
serves [] (new ∷ arrivals) [] w p a e = elim a [ ]
serves (i ∷ is) [] [] w p a e = elim a [ ]

-- The streams that wait in the queue at the start, and those that come in behind them during the waits, all
-- get a task of their own that reads them, in the order of their arrival and with no session yet; then the
-- queue is empty and the loop waits.
pub process_new_stream_spawns :
    (arrivals : List (List WrappedStream)) (w : World)
    → Arrivals w.inputs arrivals
    → Served
        (w.shared.relay_in_streams ++ all_of arrivals)
        w.out
        (process_new_stream (suc (length (w.shared.relay_in_streams ++ all_of arrivals))) w)
process_new_stream_spawns arrivals w a =
    serves w.inputs arrivals w.shared.relay_in_streams w refl a refl
