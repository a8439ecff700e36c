-- ===== src/Result.antt =====
-- Code that may throw. What the source does with an exception does not depend on its message.
use otmc_broker.Prelude.{◌≡◌, refl, ◌⊎◌, inl, inr}

-- A `TypeError` of the language, or what a library throws.
pub data Error : Type 0 where
  type_error library_error : Error

-- A value, or what was thrown.
pub data Result {ℓ} (Value : Type ℓ) : Type ℓ where
  err : Error → Result Value
  ok : Value → Result Value

module _ {ℓ κ} {Value : Type ℓ} {Next : Type κ} where
  infixl 10 ◌>>=◌
  abbrev pub ◌>>=◌ : Result Value → (Value → Result Next) → Result Next
  ◌>>=◌ (err thrown) next = err thrown
  ◌>>=◌ (ok value) next = next value

pub Result-cases {ℓ} :
    {Value : Type ℓ} (r : Result Value)
    → ((v : Value) × (r ≡ ok v)) ⊎ ((thrown : Error) × (r ≡ err thrown))
Result-cases (err thrown) = inr (thrown, refl)
Result-cases (ok v) = inl (v, refl)

-- A predicate on the value, if there is one.
abbrev pub Holds {ℓ} : {Value : Type ℓ} → (Value → Type 0) → Result Value → Type 0
Holds P (err thrown) = Unit
Holds P (ok value) = P value

pub >>=-Holds {ℓ κ} :
    {Value : Type ℓ} {Next : Type κ} (P : Next → Type 0) (r : Result Value)
    (next : Value → Result Next)
    → ((value : Value) → r ≡ ok value → Holds P (next value))
    → Holds P (r >>= next)
>>=-Holds P (err thrown) next h = tt
>>=-Holds P (ok value) next h = h value refl

pub Holds-map {ℓ} :
    {Value : Type ℓ} (P Q : Value → Type 0) (r : Result Value)
    → ((value : Value) → P value → Q value)
    → Holds P r
    → Holds Q r
Holds-map P Q (err thrown) f h = tt
Holds-map P Q (ok value) f h = f value h
