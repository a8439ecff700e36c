-- ===== src/Map.antt =====
-- JavaScript's `Map` with string keys, in insertion order. A write to a key
-- that is there keeps its place; a new key goes to the end.
pub mod Keys
pub mod Entries
use otmc_broker.Prelude.{
  ℕ, ◌+◌, Text, text_eq, text_eq_iff, Bool, true, false, List, [], ◌∷◌, map, Option, none, some,
  ◌≡◌, refl, arith, length, is_some, if◌then◌else◌,
}

abbrev pub Map {ℓ} : Type ℓ → Type ℓ
Map V = List (Text × V)

module _ {ℓ} {V : Type ℓ} where
  unfoldable pub get : Map V → Text → Option V
  get [] k = none
  get ((j, v) ∷ m) k = if text_eq j k then some v else get m k

  unfoldable pub set : Map V → Text → V → Map V
  set [] k v = (k, v) ∷ []
  set ((j, w) ∷ m) k v = if text_eq j k then (j, v) ∷ m else (j, w) ∷ set m k v

  unfoldable pub delete : Map V → Text → Map V
  delete [] k = []
  delete ((j, v) ∷ m) k = let rest = delete m k in if text_eq j k then rest else (j, v) ∷ rest

  unfoldable pub has : Map V → Text → Bool
  has m k = is_some (get m k)

  abbrev pub size : Map V → ℕ
  size m = length m

  abbrev pub values : Map V → List V
  values = map λ e. e.1

  pub get-set :
      (m : Map V) (k : Text) (v : V) (j : Text)
      → get (set m k v) j ≡ (if text_eq k j then some v else get m j)
  unfolding get set
  get-set [] k v j = refl
  get-set ((i, w) ∷ m) k v j =
      ground (arith, get-set m k v j, text_eq_iff i k, text_eq_iff i j, text_eq_iff k j)

  pub get-delete :
      (m : Map V) (k j : Text) → get (delete m k) j ≡ (if text_eq k j then none else get m j)
  unfolding get delete
  get-delete [] k j = ground arith
  get-delete ((i, w) ∷ m) k j =
      ground (arith, get-delete m k j, text_eq_iff i k, text_eq_iff i j, text_eq_iff k j)

  -- Writing a key adds an entry exactly if the key was not there.
  pub size-set :
      (m : Map V) (k : Text) (v : V) → size (set m k v) ≡ (if has m k then size m else size m + 1)
  unfolding get set has
  size-set [] k v = omega arith
  size-set ((i, w) ∷ m) k v = ground (arith, size-set m k v)

pub ruleset map_laws = (get-set, get-delete)
