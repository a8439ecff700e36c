-- ===== src/Endpoints.antt =====
-- `updateStoreEndpoints` of Nodejs_Broker/redis_config.mjs, between the read from Redis and the write.
pub mod Unique
pub mod Assigned
use otmc_broker.Prelude.{
  ℕ, Text, codes, text_eq, is_empty, List, [], ◌∷◌, ◌++◌, Option, none, some, if◌then◌else◌,
}
use otmc_broker.Map
use otmc_broker.Map.{Map}
use otmc_broker.Result.{Result, ok, err, type_error, library_error, ◌>>=◌}
use otmc_broker.Json.{
  Value, number, string, array, object, Fields, end, field, property, key_text, item_list,
}
use otmc_broker.Runtime.{Runtime}

-- An assignment to a property of an object.
unfoldable pub set_field : Fields → Text → Value → Fields
set_field end name value = field name value end
set_field (field n v rest) name value =
    let later = set_field rest name value in
    if text_eq n name then field n value rest else field n v later

-- The address `host:port` that is the key of the map.
unfoldable pub endpoint_address : Value → Result Text
endpoint_address endpoint = do
  host ← property (some endpoint) (codes "host")
  port ← property (some endpoint) (codes "port")
  ok (key_text host ++ b':' ∷ key_text port)

-- `new Map(…)`: a later endpoint replaces an earlier one with its address, in the earlier one's place.
unfoldable pub by_address : Map Value → List Value → Result (Map Value)
by_address found [] = ok found
by_address found (endpoint ∷ rest) = do
  address ← endpoint_address endpoint
  by_address (Map.set found address endpoint) rest

-- `JSON.parse` and `push`, which only an array has.
unfoldable pub pushed : Option Value → Value → Result (List Value)
pushed none endpoint = err library_error
pushed (some (array endpoints)) endpoint = ok (item_list endpoints ++ endpoint ∷ [])
pushed (some other) endpoint = err type_error

-- What Redis has for the key; a missing or an empty text counts as an empty array.
abbrev pub stored_text : Option Text → Text
stored_text none = codes "[]"
stored_text (some t) = if is_empty t then codes "[]" else t

-- The configuration's object with the three assignments.
unfoldable pub own_fields : Fields → Text → Text → Fields
unfolding set_field
own_fields mqtt public_key node_id =
    set_field
      (set_field (set_field mqtt (codes "publicKey") (string public_key)) (codes "nonce")
        (number (codes "0")))
      (codes "nodeId") (string node_id)

module _ (r : Runtime) where
  open r use {parse_json}

  -- The endpoints that are written back.
  unfoldable pub update_store_endpoints : Option Text → Value → Result (List Value)
  unfolding pushed by_address endpoint_address
  update_store_endpoints stored endpoint = do
    endpoints ← pushed (parse_json (stored_text stored)) endpoint
    unique ← by_address [] endpoints
    ok (Map.values unique)
