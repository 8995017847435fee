-- ===== src/HashMap.antt =====
-- std::collections::HashMap as the program uses it: get, insert, remove. The entries are private and
-- the program never relies on their order, so clients have the laws only.
use white_noise_rs.Prelude.{
  Eq, ◌==◌, Bool, ◌≡◌, refl, Option, none, some, List, [], ◌∷◌, arith, if◌then◌else◌, is_some,
}

pub record HashMap {ℓ κ} (K : Type ℓ) (V : Type κ) : Type (ℓ ⊔ κ) where
  entries : List (K × V)

module _ {ℓ κ} {K : Type ℓ} {V : Type κ} ⦃e : Eq K⦄ where
  find : List (K × V) → K → Option V
  find [] key = none
  find ((old, value) ∷ rest) key = if old == key then some value else find rest key

  erase : List (K × V) → K → List (K × V)
  erase [] key = []
  erase ((old, value) ∷ rest) key =
      let erased = erase rest key in if old == key then erased else (old, value) ∷ erased

  unfoldable pub get : HashMap K V → K → Option V
  unfolding find
  get m k = find m.entries k

  unfoldable pub remove : HashMap K V → K → HashMap K V
  unfolding erase
  remove m k = record { entries = erase m.entries k }

  unfoldable pub insert : HashMap K V → K → V → HashMap K V
  unfolding erase
  insert m k v = record { entries = (k, v) ∷ erase m.entries k }

  unfoldable pub contains_key : HashMap K V → K → Bool
  unfolding get
  contains_key m k = is_some (get m k)

  find-erase :
      (entries : List (K × V)) (gone key : K)
      → find (erase entries gone) key ≡ (if gone == key then none else find entries key)
  unfolding find erase
  find-erase [] gone key = ground arith
  find-erase ((old, value) ∷ rest) gone key =
      ground
        (arith, find-erase rest gone key, e.agrees old gone, e.agrees old key, e.agrees gone key)

  pub get-remove :
      (m : HashMap K V) (k j : K) → get (remove m k) j ≡ (if k == j then none else get m j)
  unfolding get remove
  get-remove m k j = find-erase m.entries k j

  pub get-insert :
      (m : HashMap K V) (k j : K) (v : V)
      → get (insert m k v) j ≡ (if k == j then some v else get m j)
  unfolding get insert find
  get-insert m k j v = simp find-erase (ground arith)

  pub contains_key_lem : (m : HashMap K V) (k : K) → contains_key m k ≡ is_some (get m k)
  unfolding contains_key
  contains_key_lem m k = refl

unfoldable pub empty {ℓ κ} : {K : Type ℓ} {V : Type κ} → HashMap K V
empty = record { entries = [] }

pub get-empty {ℓ κ} :
    {K : Type ℓ} {V : Type κ} ⦃e : Eq K⦄ (k : K) → get (empty {K = K} {V = V}) k ≡ none
unfolding get empty find
get-empty k = refl

pub ruleset map_laws = (get-empty, get-remove, get-insert, contains_key_lem)
