-- ===== src/Utils/Confusion.antt =====
-- network/utils.rs: random padding and random delay, with the constants of network/const_vb.rs.
use white_noise_rs.Prelude.{ℕ, zero, suc, ◌+◌, ◌*◌, ◌/◌, ◌%◌, List, [], ◌∷◌, length}
use white_noise_rs.Proto.{Relay}
use white_noise_rs.Task.{Task, timer, pure, emit, draw, sleep, ◌>>=◌, ◌>>◌}

abbrev pub buf_len : ℕ
buf_len = 65536

abbrev pub confusion_max_proportion : ℕ
confusion_max_proportion = 10

abbrev pub confusion_pad_len : ℕ
confusion_pad_len = 10

abbrev pub jitter_max_micros : ℕ
jitter_max_micros = 30

-- rng.gen_range(0, high), which panics at 0; no caller has 0.
unfoldable pub gen_range : ℕ → Task ℕ
gen_range high = do d ← draw; pure (d % high)

-- rng.fill_bytes on a buffer of that length
unfoldable pub fill_bytes : ℕ → Task (List ℕ)
fill_bytes zero = pure []
fill_bytes (suc n) = do b ← draw; rest ← fill_bytes n; pure ((b % 256) ∷ rest)

-- the exclusive upper bound that the length of the confusion is drawn under
abbrev pub confusion_bound : Relay → ℕ
confusion_bound relay = length relay.payload * confusion_max_proportion / 100 + confusion_pad_len

unfoldable pub confusion_relay : Relay → Task Relay
confusion_relay relay = do
  confusion_len ← gen_range (confusion_bound relay)
  confusion ← fill_bytes confusion_len
  pure (record relay { confusion = confusion })

unfoldable pub random_jitter_duration : Task ℕ
random_jitter_duration = gen_range jitter_max_micros

unfoldable pub jitter : Task (Unit {0})
jitter = do dur ← random_jitter_duration; emit (timer dur); sleep
