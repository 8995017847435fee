-- ===== src/Utils/Framing.antt =====
-- The length prefix: what `write_payload` builds, `handle_read_shake` and the readers take apart.
use white_noise_rs.Prelude.{
  ℕ, ◌+◌, ◌*◌, ◌/◌, ◌%◌, ◌<◌, ◌≡◌, ◌⊎◌, inl, inr, refl, none, some, List, [], ◌∷◌, length, take,
  take-length, All, leb, arith, ◌∙◌, true,
}
use white_noise_rs.Utils.Payload.{frame, frame_arc, deframe}

abbrev pub IsByte : ℕ → Type 0
IsByte b = b < 256

-- Whatever its length, a payload comes back from its frame as far as its length modulo 2 ^ 16 says.
pub deframe-frame_any : (buf : List ℕ) → deframe (frame buf) ≡ some (take (length buf % 65536) buf)
unfolding deframe frame
deframe-frame_any buf =
    let n : length buf % 65536 / 256 * 256 + length buf % 256 ≡ length buf % 65536 = omega arith in
    let fits : leb (length buf % 65536) (length buf) ≡ true = ground arith in rw n (rw fits)

-- A payload of fewer than 2 ^ 16 bytes comes back whole from its frame, and the frame is made of bytes
-- and two bytes longer.
pub deframe-frame :
    (buf : List ℕ)
    → length buf < 65536
    → All IsByte buf
    → (deframe (frame buf) ≡ some buf)
      × All IsByte (frame buf)
      × (length (frame buf) ≡ length buf + 2)
deframe-frame buf h bytes =
    (whole, unfold frame in (omega arith, (omega arith, bytes)), unfold frame in omega arith)
  where
    whole : deframe (frame buf) ≡ some buf
    whole =
        let e : length buf % 65536 ≡ length buf = omega arith in
        deframe-frame_any buf ∙ rw (e, take-length buf) refl

-- The two ways to build a frame agree, except on the empty payload, where `write_payload_arc` panics.
pub frame_arc_agrees :
    (buf : List ℕ) → ((buf ≡ []) × (frame_arc buf ≡ none)) ⊎ (frame_arc buf ≡ some (frame buf))
unfolding frame_arc
frame_arc_agrees [] = inl (refl, refl)
frame_arc_agrees (b ∷ buf) = inr refl
