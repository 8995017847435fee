-- ===== src/Prelude/Text.antt =====
-- The bytes of a text (str::as_bytes), and str::split_at(1) with its panics.
use Prim.Native.Nat.{ℕ, ◌+◌, ◌/◌, ◌%◌}
use Prim.Native.Char.{code}
use Prim.Native.String.{String}
use mathlib.Core.List.{List, [], ◌∷◌, ◌++◌}
use mathlib.Core.Option.{Option, none, some}
use white_noise_rs.Prelude.Tests.{ltb, nat_eq, if◌then◌else◌}
use mathlib.Core.Bool.{Bool, true, false, ◌&&◌}

-- The low six bits of a code point behind 0b10.
trail : ℕ → ℕ
trail c = 128 + c % 64

utf8 : ℕ → List ℕ
unfolding trail
utf8 c =
    if ltb c 0x80
    then c ∷ []
    else if ltb c 0x800
    then (192 + c / 64) ∷ trail c ∷ []
    else if ltb c 0x10000
    then (224 + c / 4096) ∷ trail (c / 64) ∷ trail c ∷ []
    else (240 + c / 262144) ∷ trail (c / 4096) ∷ trail (c / 64) ∷ trail c ∷ []

unfoldable pub as_bytes : String → List ℕ
unfolding utf8
as_bytes String.[] = []
as_bytes (String.◌∷◌ c s) = utf8 (code c) ++ as_bytes s

-- `none` is the panic of a text that is empty or has no character boundary at byte 1. The first
-- part is one ASCII character: its byte.
unfoldable pub split_at_one : String → Option (ℕ × String)
split_at_one String.[] = none
split_at_one (String.◌∷◌ c s) = if ltb (code c) 0x80 then some (code c, s) else none

-- str::starts_with, the pattern first.
unfoldable pub starts_with : String → String → Bool
starts_with String.[] s = true
starts_with (String.◌∷◌ p ps) String.[] = false
starts_with (String.◌∷◌ p ps) (String.◌∷◌ c s) = nat_eq (code p) (code c) && starts_with ps s
