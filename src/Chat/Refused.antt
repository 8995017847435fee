-- ===== src/Chat/Refused.antt =====
-- whitenoise-client/src/main.rs: a client whose registration is refused.
use white_noise_rs.Prelude.{
  ℕ, ◌≡◌, refl, String, false, Option, none, some, List, ◌∷◌, split_at_one, string_eq,
}
use white_noise_rs.Proto.{Ack}
use white_noise_rs.Host.{Codec, Host, PeerId}
use white_noise_rs.State.{proxy_request}
use white_noise_rs.Task.{Input, World, panicked, resolved, node_request, ◌>>=◌}
use white_noise_rs.Utils.Ids.{from_request_get_id}
use white_noise_rs.Account.{from_keypair_to_whitenoise_id}
use white_noise_rs.Node.Waiters.{awaiting, request_waits_registered}
use white_noise_rs.Client.{keyed_request, register_proxy, dial, generate_session_id}
use white_noise_rs.Client.Calls.{registration}
use white_noise_rs.Chat.{ChatMessage, chat, caller, chat_through}

module _ (host : Host) (remote id : String) where
  -- Whatever it dials: the proxy is unwrapped at the latest.
  dial_without_proxy :
      (w : World)
      → from_keypair_to_whitenoise_id host w.local.keypair ≡ some id
      → w.local.proxy_id ≡ none
      → (dial host remote w).0 ≡ panicked
  unfolding dial generate_session_id ◌>>=◌
  dial_without_proxy w identity no_proxy = parted (split_at_one remote) refl
    where
      decoded :
          (parts : ℕ × String) (bytes : Option (List ℕ))
          → split_at_one remote ≡ some parts
          → host.bs58_decode parts.1 ≡ bytes
          → (dial host remote w).0 ≡ panicked
      decoded parts none e d = rw identity (rw e (rw d refl))
      decoded parts (some bytes) e d = rw identity (rw e (rw d (rw no_proxy refl)))

      parted :
          (parts : Option (ℕ × String))
          → split_at_one remote ≡ parts
          → (dial host remote w).0 ≡ panicked
      parted none e = rw identity (rw e refl)
      parted (some parts) e = decoded parts (host.bs58_decode parts.1) e refl

module _ (host : Host) (encrypts decrypts : ℕ → List ℕ → Option (List ℕ))
    (chat_message : Codec ChatMessage) (peer : PeerId) (id : String) (ack : Ack) (i : Input)
    (rest : List Input) (nick_name remote : String) (w : World)
    (identity : from_keypair_to_whitenoise_id host w.local.keypair ≡ some id)
    (next : w.inputs ≡ i ∷ rest) (answers : i.answer ≡ resolved ack) (refused : ack.result ≡ false)
    (no_proxy : w.local.proxy_id ≡ none) where
  -- A new client whose registration is refused panics as soon as it dials.
  pub refused_caller_panics :
      (chat_through host encrypts decrypts chat_message peer (some remote) nick_name w).0 ≡ panicked
  unfolding chat_through chat caller register_proxy ◌>>=◌
  refused_caller_panics =
      let request = registration host id w in
      let key = from_request_get_id host request in
      let asked =
        (request_waits_registered key (proxy_request (keyed_request peer request key)) w i rest ack
          next answers).0 in
      let told : World = record w {
        shared = i.others (awaiting key w.shared);
        out = node_request (proxy_request (keyed_request peer request key)) ∷ w.out;
        inputs = rest;
        seen = awaiting key w.shared ∷ w.seen;
      } in
      rw identity (
        rw (asked, ◌>>=◌)
          (rw refused (rw (dial_without_proxy host remote id told identity no_proxy) refl)))
