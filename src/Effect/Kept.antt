-- ===== src/Effect/Kept.antt =====
-- Properties of the state that an effect keeps, also if it throws.
use otmc_broker.Result.{Result, ok, err}
use otmc_broker.Effect.{Effect, continue, ◌>>=◌}

abbrev pub IsKept {ℓ} : {State : Type 0} {A : Type ℓ} → (State → Type 0) → Effect State A → Type 0
IsKept {State} I m = (s : State) → I s → I (m s).1

module _ {ℓ κ} {State : Type 0} {A : Type ℓ} {B : Type κ} (I : State → Type 0) where
  continue-IsKept :
      (r : Result A) (f : A → Effect State B) (s : State)
      → ((a : A) → IsKept I (f a))
      → I s
      → I (continue r f s).1
  continue-IsKept (ok a) f s next i = next a s i
  continue-IsKept (err e) f s next i = i

  pub >>=-IsKept :
      (m : Effect State A) (f : A → Effect State B)
      → IsKept I m
      → ((a : A) → IsKept I (f a))
      → IsKept I (m >>= f)
  >>=-IsKept m f first next s i = continue-IsKept (m s).0 f (m s).1 next (first s i)
