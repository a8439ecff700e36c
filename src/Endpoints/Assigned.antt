-- ===== src/Endpoints/Assigned.antt =====
-- What a property of an object is after an assignment.
use otmc_broker.Prelude.{Text, text_eq, text_eq_iff, some, ◌≡◌, refl, arith, if◌then◌else◌}
use otmc_broker.Json.{Value, Fields, end, field, field_value}
use otmc_broker.Endpoints.{set_field}

pub field_value-set_field :
    (fields : Fields) (name : Text) (value : Value) (other : Text)
    → field_value (set_field fields name value) other
      ≡ (if text_eq name other then some value else field_value fields other)
unfolding field_value set_field
field_value-set_field end name value other = refl
field_value-set_field (field n v rest) name value other = ground (
  arith,
  field_value-set_field rest name value other,
  text_eq_iff n name,
  text_eq_iff n other,
  text_eq_iff name other,
)
