-- ===== src/Witnesses/Handshakes.antt =====
-- The theorems of Handshake, Interleaving and Utils/ReadBack at concrete runs.
use white_noise_rs.Prelude.{
  ℕ, suc, ◌≡◌, refl, ap, true, false, Option, none, some, List, [], ◌∷◌, ◌++◌, arith,
}
use white_noise_rs.Proto.{NoiseHandshakePayload}
use white_noise_rs.State.{new_shared}
use white_noise_rs.Task.{Input, World, done, elapsed, circuit_data}
use white_noise_rs.Utils.Payload.{frame}
use white_noise_rs.Handshake.{Noise, process_handshake}
use white_noise_rs.Handshake.Meeting.{handshake_meets}
use white_noise_rs.Handshake.Unverified.{process_handshake_unverified}
use white_noise_rs.Witnesses.Setting.{host, conn, world, quiet}

-- A noise state counts its messages; a message is its payload behind one byte.
abbrev unmarked : ℕ → List ℕ → Option (List ℕ × ℕ)
unmarked n [] = none
unmarked n (x ∷ b) = some (b, suc n)

abbrev short_payload : List ℕ → Option NoiseHandshakePayload
short_payload (k ∷ s ∷ []) = some (record { identity_key = k ∷ []; identity_sig = s ∷ [] })
short_payload _ = none

abbrev pub noise : Noise ℕ
noise = record {
  into_authentic = λ seed keypair. some (record {
    public = 1 ∷ [];
    secret = 2 ∷ [];
    identity = record { public = 3 ∷ []; signature = some (4 ∷ []) };
  });
  build_initiator = λ b. some 0;
  build_responder = λ b. some 0;
  write_message = λ n b. some (77 ∷ b, suc n);
  read_message = unmarked;
  get_remote_static = λ n. some (9 ∷ []);
  into_transport_mode = λ n. some n;
  payload = record { encode = λ m. m.identity_key ++ m.identity_sig; decode = short_payload };
  valid_public_key = λ b. some b;
  verify = λ key b signature. false;
}

abbrev second : Input
second = quiet (circuit_data (some (frame (77 ∷ 3 ∷ 4 ∷ []))))

abbrev first : Input
first = quiet (circuit_data (some (frame (77 ∷ []))))

abbrev calling : World
calling = world new_shared (quiet elapsed ∷ second ∷ quiet elapsed ∷ [])

abbrev answering : World
answering = world new_shared (first ∷ quiet elapsed ∷ second ∷ [])

handshake_meets_example :
    ((process_handshake host noise conn true "s" calling).0 ≡ done tt)
    × ((process_handshake host noise conn false "s" answering).0 ≡ done tt)
handshake_meets_example =
    let both =
      handshake_meets host noise "s" conn conn
        (record {
          public = 1 ∷ [];
          secret = 2 ∷ [];
          identity = record { public = 3 ∷ []; signature = some (4 ∷ []) };
        })
        (record {
          public = 1 ∷ [];
          secret = 2 ∷ [];
          identity = record { public = 3 ∷ []; signature = some (4 ∷ []) };
        })
        (4 ∷ []) (4 ∷ []) (9 ∷ []) (9 ∷ []) (3 ∷ []) (3 ∷ []) 0 1 2 3 0 1 2 3 3 3 77 77 77 []
        (3 ∷ 4 ∷ []) (3 ∷ 4 ∷ []) [] calling answering (quiet elapsed) (quiet elapsed)
        (quiet elapsed) second first second refl refl refl refl refl refl refl refl refl refl refl
        refl refl refl refl refl refl refl refl refl (omega arith) (omega arith) (omega arith)
        (omega arith, tt) (omega arith, (omega arith, (omega arith, tt)))
        (omega arith, (omega arith, (omega arith, tt))) refl refl refl refl refl refl refl refl in
    (ap (λ r. r.0) both.0, ap (λ r. r.0) both.1)

process_handshake_unverified_example :
    process_handshake host (record noise { verify = λ key b signature. true }) conn true "s" calling
    ≡ process_handshake host noise conn true "s" calling
process_handshake_unverified_example =
    process_handshake_unverified noise (λ key b signature. true) host conn true "s" calling
