-- ===== src/Map/Keys.antt =====
-- The keys of a map are distinct, and every operation keeps them so.
use otmc_broker.Prelude.{
  Text, text_eq, text_eq_iff, Bool-cases, true, false, [], ◌∷◌, inl, inr, All, ◌≡◌, ◌≢◌, arith,
  if◌then◌else◌,
}
use otmc_broker.Map.{Map, get, set, delete, has, get-set, get-delete}

module _ {ℓ} {V : Type ℓ} where
  -- No key has a second entry further down.
  abbrev pub IsDistinct : Map V → Type 0
  IsDistinct [] = Unit
  IsDistinct ((k, v) ∷ m) = (has m k ≡ false) × IsDistinct m

  pub has-set :
      (m : Map V) (k : Text) (v : V) (j : Text)
      → has (set m k v) j ≡ (if text_eq k j then true else has m j)
  unfolding has
  has-set m k v j = ground (arith, get-set m k v j)

  pub has-delete :
      (m : Map V) (k j : Text) → has (delete m k) j ≡ (if text_eq k j then false else has m j)
  unfolding has
  has-delete m k j = ground (arith, get-delete m k j)

  pub set-IsDistinct : (m : Map V) (k : Text) (v : V) → IsDistinct m → IsDistinct (set m k v)
  unfolding set has get
  set-IsDistinct [] k v d = ground arith
  set-IsDistinct ((j, w) ∷ m) k v d =
      ground (arith, set-IsDistinct m k v d.1, has-set m k v j, text_eq_iff j k, text_eq_iff k j)

  pub delete-IsDistinct : (m : Map V) (k : Text) → IsDistinct m → IsDistinct (delete m k)
  unfolding delete
  delete-IsDistinct [] k d = tt
  delete-IsDistinct ((j, w) ∷ m) k d = ground (arith, delete-IsDistinct m k d.1, has-delete m k j)

  -- A key that is absent differs from the key of every entry.
  pub has-All : (m : Map V) (k : Text) → has m k ≡ false → All (λ entry. entry.0 ≢ k) m
  unfolding has get
  has-All [] k absent = tt
  has-All ((j, v) ∷ m) k absent = elim (Bool-cases (text_eq j k)) [
    | inl hit ↦ absurd (cc (rw hit at absent))
    | inr miss ↦ (λ same. cc (miss, (text_eq_iff j k).1 same), has-All m k (rw miss at absent))
  ]
