-- ===== src/Map/Entries.antt =====
-- Predicates on the entries that can be found in a map, and the operations.
use mathlib.Core.Option.{some-injective}
use otmc_broker.Prelude.{
  Text, text_eq, text_eq_iff, Bool-cases, false, some, inl, inr, ◌≡◌, subst, arith,
}
use otmc_broker.Map
use otmc_broker.Map.{Map, set, delete, get-set, get-delete}

module _ {ℓ κ} {V : Type ℓ} where
  abbrev pub AllEntries : (Text → V → Type κ) → Map V → Type (ℓ ⊔ κ)
  AllEntries P m = (k : Text) (v : V) → Map.get m k ≡ some v → P k v

  module _ (P Q : Text → V → Type κ) (m : Map V) (k : Text) where
    pub set-AllEntries :
        (v : V)
        → Q k v
        → ((j : Text) (w : V) → text_eq k j ≡ false → P j w → Q j w)
        → AllEntries P m
        → AllEntries Q (set m k v)
    set-AllEntries v here others all j w found = elim (Bool-cases (text_eq k j)) [
      | inl hit ↦
          let same_key : k ≡ j = (text_eq_iff k j).0 hit in
          let same_value : v ≡ w =
            some-injective v w (ground (arith, found, hit, get-set m k v j)) in
          subst (λ i. Q i w) same_key (subst (Q k) same_value here)
      | inr miss ↦ others j w miss (all j w (ground (arith, found, miss, get-set m k v j)))
    ]

  pub delete-AllEntries :
      (P : Text → V → Type κ) (m : Map V) (k : Text) → AllEntries P m → AllEntries P (delete m k)
  delete-AllEntries P m k all j w found =
      all j w (ground (arith, found, Bool-cases (text_eq k j), get-delete m k j))
