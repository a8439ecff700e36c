-- ===== src/PlainObject.antt =====
-- A plain object that is used as a map from strings. Reading a key that has no entry gives the member
-- that every object inherits under that name, if there is one.
use otmc_broker.Prelude.{Text, codes, Bool, true, false, [], ◌∷◌, none, some, if◌then◌else◌}
use otmc_broker.Map
use otmc_broker.Map.{Map}
use otmc_broker.TextSet

pub data Found {ℓ} (Value : Type ℓ) : Type ℓ where
  missing : Found Value
  inherited : Found Value
  found : Value → Found Value

-- The members of `Object.prototype`, all of which are truthy.
unfoldable pub is_inherited : Text → Bool
is_inherited key =
    TextSet.has
      (codes "constructor"
        ∷ codes "hasOwnProperty"
        ∷ codes "isPrototypeOf"
        ∷ codes "propertyIsEnumerable"
        ∷ codes "toLocaleString"
        ∷ codes "toString"
        ∷ codes "valueOf"
        ∷ codes "__proto__"
        ∷ codes "__defineGetter__"
        ∷ codes "__defineSetter__"
        ∷ codes "__lookupGetter__"
        ∷ codes "__lookupSetter__"
        ∷ [])
      key

module _ {ℓ} {Value : Type ℓ} where
  unfoldable pub member : Map Value → Text → Found Value
  unfolding is_inherited
  member entries key = elim (Map.get entries key) [
    | some value ↦ found value
    | none ↦ if is_inherited key then inherited else missing
  ]

  -- The objects are truthy, whether stored or inherited.
  abbrev pub is_present : Found Value → Bool
  is_present missing = false
  is_present inherited = true
  is_present (found value) = true
