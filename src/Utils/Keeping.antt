-- ===== src/Utils/Keeping.antt =====
-- network/utils.rs, its tasks: none writes to the shared maps, so they keep what the others keep.
use white_noise_rs.Prelude.{ℕ, zero, suc, String, Option, none, some, List, string_eq}
use white_noise_rs.Proto.{Relay}
use white_noise_rs.Host.{Host}
use white_noise_rs.State.{WrappedStream, Session, Shared}
use white_noise_rs.Task.Keeps.{Keeps, keeps_rules, Keeps-pure, Keeps-emit, Keeps-bind, Keeps-draw}
use white_noise_rs.Utils.Confusion.{
  gen_range, fill_bytes, confusion_relay, random_jitter_duration, jitter,
}
use white_noise_rs.Utils.Write.{
  write_relay_arc, write_disconnect_arc, write_relay_wake_arc, write_set_session_with_role_arc,
  decode_read, read_from_negotiated_arc,
}
use white_noise_rs.Utils.Forward.{forward_relay, spawn_write, send_relay_twoway}

module _ {P : Shared → Type 0} where
  gen_range-Keeps : (high : ℕ) → Keeps P (gen_range high)
  unfolding gen_range
  gen_range-Keeps high = search keeps_rules

  fill_bytes-Keeps : (n : ℕ) → Keeps P (fill_bytes n)
  unfolding fill_bytes
  fill_bytes-Keeps zero = search keeps_rules
  fill_bytes-Keeps (suc n) =
      Keeps-bind _ _ Keeps-draw (λ b. Keeps-bind _ _ (fill_bytes-Keeps n) (λ rest. Keeps-pure _))

  confusion_relay-Keeps : (relay : Relay) → Keeps P (confusion_relay relay)
  unfolding confusion_relay
  confusion_relay-Keeps relay = search (keeps_rules, gen_range-Keeps, fill_bytes-Keeps)

  jitter-Keeps : Keeps P jitter
  unfolding jitter random_jitter_duration
  jitter-Keeps = search (keeps_rules, gen_range-Keeps)

  spawn_write-Keeps :
      (stream : Option WrappedStream) (relay : Relay) → Keeps P (spawn_write stream relay)
  spawn_write-Keeps none relay = Keeps-pure tt
  spawn_write-Keeps (some stream) relay = Keeps-emit _

  pub send_relay_twoway-Keeps :
      (session : Session) (relay : Relay) → Keeps P (send_relay_twoway session relay)
  unfolding send_relay_twoway
  send_relay_twoway-Keeps session relay = search (keeps_rules, spawn_write-Keeps)

module _ (host : Host) {P : Shared → Type 0} where
  pub write_relay_arc-Keeps :
      (stream : WrappedStream) (relay : Relay) → Keeps P (write_relay_arc host stream relay)
  unfolding write_relay_arc
  write_relay_arc-Keeps stream relay = search (keeps_rules, confusion_relay-Keeps, jitter-Keeps)

  pub write_disconnect_arc-Keeps :
      (stream : WrappedStream) (id : String) → Keeps P (write_disconnect_arc host stream id)
  unfolding write_disconnect_arc
  write_disconnect_arc-Keeps stream id = search (keeps_rules, write_relay_arc-Keeps)

  pub write_relay_wake_arc-Keeps :
      (stream : WrappedStream) → Keeps P (write_relay_wake_arc host stream)
  unfolding write_relay_wake_arc
  write_relay_wake_arc-Keeps stream = search (keeps_rules, write_relay_arc-Keeps)

  pub write_set_session_with_role_arc-Keeps :
      (stream : WrappedStream) (id : String) (role : ℕ)
      → Keeps P (write_set_session_with_role_arc host stream id role)
  unfolding write_set_session_with_role_arc
  write_set_session_with_role_arc-Keeps stream id role = write_relay_arc-Keeps stream _

  pub forward_relay-Keeps :
      (session : Session) (id : String) (relay : Relay)
      → Keeps P (forward_relay host session id relay)
  unfolding forward_relay
  forward_relay-Keeps session id relay = search (keeps_rules, write_relay_arc-Keeps) depth 12

  pub decode_read-Keeps : (msg : Option (List ℕ)) → Keeps P (decode_read host msg)
  decode_read-Keeps none = search keeps_rules
  decode_read-Keeps (some msg) = search keeps_rules

  pub read_from_negotiated_arc-Keeps : Keeps P (read_from_negotiated_arc host)
  unfolding read_from_negotiated_arc
  read_from_negotiated_arc-Keeps = search (keeps_rules, decode_read-Keeps)

pub ruleset keeping = (
  keeps_rules, send_relay_twoway-Keeps, write_relay_arc-Keeps, write_disconnect_arc-Keeps,
  write_relay_wake_arc-Keeps, write_set_session_with_role_arc-Keeps, forward_relay-Keeps,
  read_from_negotiated_arc-Keeps,
)
