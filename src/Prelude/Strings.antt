-- ===== src/Prelude/Strings.antt =====
-- JavaScript strings as lists of code units, with `===`, `split` and `join`.
use Prim.Native.Nat.{ℕ}
use Prim.Native.Char.{code}
use Prim.Native.String.{String}
use mathlib.Core.Path.{◌≡◌, refl}
use mathlib.Core.Logic.{◌≢◌, ◌↔◌, inl, inr}
use mathlib.Core.Bool.{Bool, true, false, ◌&&◌}
use mathlib.Core.List.{List, [], ◌∷◌, ◌++◌}
use native.Mathlib.Omega.{arith}
use otmc_broker.Prelude.Tests.{◌==◌, Bool-cases, if◌then◌else◌}
use otmc_broker.Prelude.Lists.{All}

abbrev pub Text : Type 0
Text = List ℕ

-- The code units of a literal of the source, all of which are ASCII.
abbrev pub codes : String → Text
codes String.[] = []
codes (String.◌∷◌ c s) = code c ∷ codes s

-- `===` on strings.
unfoldable pub text_eq : Text → Text → Bool
text_eq [] [] = true
text_eq (a ∷ s) (b ∷ t) = (a == b) && text_eq s t
text_eq _ _ = false

pub text_eq_iff : (s t : Text) → (text_eq s t ≡ true) ↔ (s ≡ t)
unfolding text_eq
text_eq_iff [] [] = (λ _. refl, λ _. refl)
text_eq_iff [] (b ∷ t) = ground arith
text_eq_iff (a ∷ s) [] = ground arith
text_eq_iff (a ∷ s) (b ∷ t) = ground (arith, text_eq_iff s t)

pub text_eq_refl : (s : Text) → text_eq s s ≡ true
text_eq_refl s = (text_eq_iff s s).1 refl

-- A string is falsy when it is empty.
abbrev pub is_empty : Text → Bool
is_empty [] = true
is_empty (c ∷ s) = false

push_first : ℕ → List Text → List Text
push_first c [] = (c ∷ []) ∷ []
push_first c (x ∷ xs) = (c ∷ x) ∷ xs

-- `s.split(sep)` for a separator of one unit: the empty string has one part.
unfoldable pub split : ℕ → Text → List Text
unfolding push_first
split sep [] = [] ∷ []
split sep (c ∷ s) = let rest = split sep s in if c == sep then [] ∷ rest else push_first c rest

-- `parts.join(sep)`.
unfoldable pub join : ℕ → List Text → Text
join sep [] = []
join sep (x ∷ []) = x
join sep (x ∷ y ∷ xs) = x ++ sep ∷ join sep (y ∷ xs)

push_first-append :
    (c : ℕ) (x : Text) (xs ys : List Text)
    → push_first c ((x ∷ xs) ++ ys) ≡ push_first c (x ∷ xs) ++ ys
unfolding push_first
push_first-append c x xs ys = refl

pub split_cons : (sep : ℕ) (s : Text) → (x : Text) × (xs : List Text) × (split sep s ≡ x ∷ xs)
unfolding split
split_cons sep [] = ([], [], refl)
split_cons sep (c ∷ s) = split_step (split_cons sep s)
  where
    split_step :
        ((x : Text) × (xs : List Text) × (split sep s ≡ x ∷ xs))
        → (x : Text) × (xs : List Text) × (split sep (c ∷ s) ≡ x ∷ xs)
    split_step (x, xs, e) = elim (Bool-cases (c == sep)) [
      | inl cut ↦ ([], split sep s, rw cut)
      | inr more ↦ (c ∷ x, xs, rw (more, e))
    ]

-- A separator between two texts is a cut between their parts.
pub split-append : (sep : ℕ) (s t : Text) → split sep (s ++ sep ∷ t) ≡ split sep s ++ split sep t
unfolding split
split-append sep [] t = ground arith
split-append sep (c ∷ s) t =
    let (x, xs, e) = split_cons sep s in
    ground (arith, split-append sep s t, e, push_first-append c x xs (split sep t))

abbrev pub Avoids : ℕ → Text → Type 0
Avoids sep s = All (λ c. c ≢ sep) s

pub split_lem : (sep : ℕ) (s : Text) → Avoids sep s → split sep s ≡ s ∷ []
unfolding split
split_lem sep [] h = refl
split_lem sep (c ∷ s) h = ground (arith, split_lem sep s h.1)
