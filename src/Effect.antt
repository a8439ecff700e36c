-- ===== src/Effect.antt =====
-- Code that changes a state and may throw. What it did before a throw stays done.
pub mod Kept
use otmc_broker.Result.{Result, ok, err}

abbrev pub Effect {ℓ} : Type 0 → Type ℓ → Type ℓ
Effect State A = State → Result A × State

module _ {ℓ} {State : Type 0} {A : Type ℓ} where
  abbrev pub pure : A → Effect State A
  pure a s = (ok a, s)

  abbrev pub lift : Result A → Effect State A
  lift r s = (r, s)

  abbrev pub gets : (State → A) → Effect State A
  gets f s = (ok (f s), s)

abbrev pub modify : {State : Type 0} → (State → State) → Effect State (Unit {0})
modify f s = (ok tt, f s)

module _ {ℓ κ} {State : Type 0} {A : Type ℓ} {B : Type κ} where
  abbrev pub continue : Result A → (A → Effect State B) → Effect State B
  continue (ok a) f s = f a s
  continue (err e) f s = (err e, s)

  infixl 10 ◌>>=◌
  abbrev pub ◌>>=◌ : Effect State A → (A → Effect State B) → Effect State B
  ◌>>=◌ m f s = let (r, s') = m s in continue r f s'

infixl 10 ◌>>◌
abbrev pub ◌>>◌ {ℓ} :
    {State : Type 0} {B : Type ℓ} → Effect State (Unit {0}) → Effect State B → Effect State B
m >> n = m >>= λ _. n
