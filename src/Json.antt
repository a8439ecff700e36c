-- ===== src/Json.antt =====
-- The values that `JSON.parse` gives, and what the source does with them: property access, `||`,
-- `toString`, `for … of`. `none` is `undefined`. Objects are taken to have no member of their own that
-- is named `toString` or `valueOf`; `String` throws for most that do.
use otmc_broker.Prelude.{
  Text, codes, text_eq, is_empty, Bool, true, false, not, List, [], ◌∷◌, ◌++◌, map, Option, none,
  some, if◌then◌else◌,
}
use otmc_broker.Result.{Result, ok, err, type_error}

mutual
  -- A number is held by the text that `String` gives for it.
  pub data Value : Type 0 where
    null : Value
    boolean : Bool → Value
    number : Text → Value
    string : Text → Value
    array : Items → Value
    object : Fields → Value

  pub data Items : Type 0 where
    nil : Items
    cons : Value → Items → Items

  pub data Fields : Type 0 where
    end : Fields
    field : Text → Value → Fields → Fields

unfoldable pub field_value : Fields → Text → Option Value
field_value end name = none
field_value (field n v fs) name = if text_eq n name then some v else field_value fs name

-- `v.name`: a throw on `undefined` and `null`. The names that the source reads are no properties of
-- texts, numbers, booleans or arrays.
unfoldable pub property : Option Value → Text → Result (Option Value)
property none name = err type_error
property (some null) name = err type_error
property (some (object fs)) name = ok (field_value fs name)
property (some v) name = ok none

unfoldable pub truthy : Option Value → Bool
truthy none = false
truthy (some null) = false
truthy (some (boolean b)) = b
truthy (some (number t)) = not (text_eq t (codes "0"))
truthy (some (string t)) = not (is_empty t)
truthy (some v) = true

infixr 30 ◌or_else◌
abbrev pub ◌or_else◌ : Option Value → Option Value → Option Value
a or_else b = if truthy a then a else b

-- An element of an array in `array.join()`: `null` gives nothing.
abbrev pub unless_null : Value → Text → Text
unless_null null text = []
unless_null v text = text

unfoldable mutual
  -- `String(v)`.
  pub to_text : Value → Text
  to_text null = codes "null"
  to_text (boolean true) = codes "true"
  to_text (boolean false) = codes "false"
  to_text (number t) = t
  to_text (string t) = t
  to_text (array vs) = join_items vs
  to_text (object fs) = codes "[object Object]"

  -- `array.join()`.
  pub join_items : Items → Text
  join_items nil = []
  join_items (cons v nil) = unless_null v (to_text v)
  join_items (cons v (cons w vs)) = unless_null v (to_text v) ++ b',' ∷ join_items (cons w vs)

-- `v?.toString()`.
unfoldable pub optional_text : Option Value → Option Text
optional_text none = none
optional_text (some null) = none
optional_text (some v) = some (to_text v)

abbrev pub item_list : Items → List Value
item_list nil = []
item_list (cons v vs) = v ∷ item_list vs

-- What `for … of` runs over. The elements of a text are one-character texts.
unfoldable pub iterate : Option Value → Result (List Value)
iterate (some (array vs)) = ok (item_list vs)
iterate (some (string t)) = ok (map (λ c. string (c ∷ [])) t)
iterate v = err type_error

-- A value as a property key.
unfoldable pub key_text : Option Value → Text
key_text none = codes "undefined"
key_text (some v) = to_text v

abbrev pub string_value : Option Value → Option Text
string_value (some (string t)) = some t
string_value v = none
