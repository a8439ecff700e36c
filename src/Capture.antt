-- ===== src/Capture.antt =====
-- Regular expressions of the form `/marker(c+)/` for a class of units c: the group of the first match.
use otmc_broker.Prelude.{
  ℕ, Text, is_empty, Bool, true, [], ◌∷◌, All, Option, none, some, ◌≡◌, refl, ap, if◌then◌else◌,
}
use otmc_broker.Pem.{strip_prefix}

-- The longest start whose units are of the class.
unfoldable pub units_of : (ℕ → Bool) → Text → Text
units_of test [] = []
units_of test (c ∷ s) = let rest = units_of test s in if test c then c ∷ rest else []

abbrev pub group_or_later : (ℕ → Bool) → Option Text → Option Text → Option Text
group_or_later test none later = later
group_or_later test (some rest) later =
    if is_empty (units_of test rest) then later else some (units_of test rest)

unfoldable pub capture : Text → (ℕ → Bool) → Text → Option Text
unfolding strip_prefix units_of
capture marker test [] = none
capture marker test (c ∷ s) =
    let later = capture marker test s in group_or_later test (strip_prefix marker (c ∷ s)) later

pub units_of-All : (test : ℕ → Bool) (s : Text) → All (λ c. test c ≡ true) s → units_of test s ≡ s
unfolding units_of
units_of-All test [] all = refl
units_of-All test (c ∷ s) all = rw all.0 (ap (λ t. c ∷ t) (units_of-All test s all.1))
