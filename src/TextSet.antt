-- ===== src/TextSet.antt =====
-- JavaScript's `Set` of strings, in insertion order: a member that is added again keeps its place.
use otmc_broker.Prelude.{
  Text, text_eq, text_eq_iff, Bool, false, ◌||◌, List, [], ◌∷◌, ◌≡◌, refl, arith, if◌then◌else◌,
}

abbrev pub TextSet : Type 0
TextSet = List Text

unfoldable pub has : TextSet → Text → Bool
has [] k = false
has (j ∷ s) k = text_eq j k || has s k

unfoldable pub add : TextSet → Text → TextSet
add [] k = k ∷ []
add (j ∷ s) k = if text_eq j k then j ∷ s else j ∷ add s k

unfoldable pub delete : TextSet → Text → TextSet
delete [] k = []
delete (j ∷ s) k = let rest = delete s k in if text_eq j k then rest else j ∷ rest

pub has-add : (s : TextSet) (k j : Text) → has (add s k) j ≡ (text_eq k j || has s j)
unfolding has add
has-add [] k j = refl
has-add (i ∷ s) k j =
    ground (arith, has-add s k j, text_eq_iff i k, text_eq_iff i j, text_eq_iff k j)

pub has-delete :
    (s : TextSet) (k j : Text) → has (delete s k) j ≡ (if text_eq k j then false else has s j)
unfolding has delete
has-delete [] k j = ground arith
has-delete (i ∷ s) k j =
    ground (arith, has-delete s k j, text_eq_iff i k, text_eq_iff i j, text_eq_iff k j)

pub ruleset set_laws = (has-add, has-delete)
