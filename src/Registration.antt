-- ===== src/Registration.antt =====
-- Nodejs_Broker/redis_config.mjs: the brokers that register themselves in one Redis. The endpoints are
-- read and written by two commands, between which other brokers may act.
pub mod Found
pub mod Backend
use otmc_broker.Prelude.{
  ℕ, suc, Text, codes, List, [], ◌∷◌, ◌++◌, Option, none, some, ◌==◌, if◌then◌else◌,
}
use otmc_broker.Map
use otmc_broker.Map.{Map}
use otmc_broker.Result.{Result, ok, err, ◌>>=◌}
use otmc_broker.Json.{Value, number, string, array, object, Items, nil, cons, Fields}
use otmc_broker.Runtime.{Runtime}
use otmc_broker.Endpoints.{set_field, own_fields, update_store_endpoints}

-- `nodeId`, `publicKey`, and `config.mqtt` as JSON has it.
pub record Broker : Type 0 where
  pub node_id : Text
  pub public_key : Text
  pub mqtt : Fields

-- What Redis has, the messages on the channel of updates, and what each broker has read of the list.
pub record Registry : Type 0 where
  pub entries : Map Text
  pub updates : ℕ
  pub held : ℕ → Option Text

abbrev pub empty : Registry
empty = record { entries = []; updates = 0; held = λ n. none }

abbrev pub store_endpoints_key : Text
store_endpoints_key = codes "otmc:broker:store:endpoints"

abbrev pub store_endpoint_key : Text → Text
store_endpoint_key node_id = codes "otmc:broker:store:endpoint" ++ b':' ∷ node_id

abbrev pub items : List Value → Items
items [] = nil
items (v ∷ vs) = cons v (items vs)

-- `newEndpoint`, to which `updateStoreEndpoints` has assigned.
abbrev pub endpoint_of : Broker → Fields
endpoint_of broker = own_fields broker.mqtt broker.public_key broker.node_id

-- `newEndpoint2`, the copy with the number of clients.
unfoldable pub endpoint_of_node : Broker → Text → Fields
unfolding own_fields set_field
endpoint_of_node broker count =
    set_field
      (set_field (set_field (endpoint_of broker) (codes "clientCounter") (number count))
        (codes "publicKey") (string broker.public_key))
      (codes "nonce") (number (codes "0"))

-- The commands of a broker, and the end of an entry's time to live.
pub data Step : Type 0 where
  reads : ℕ → Step
  writes : ℕ → Step
  announces : ℕ → (count : Text) → Step
  expires : (key : Text) → Step

-- The answer to the first command of `updateStoreEndpoints`.
abbrev pub read_by : ℕ → Registry → Registry
read_by n registry = record registry {
  held = λ j. if n == j then Map.get registry.entries store_endpoints_key else registry.held j;
}

module _ (r : Runtime) where
  open r use {stringify}

  -- `updateStoreEndpoints` from the answer of Redis on.
  unfoldable pub write_endpoints : Option Text → Broker → Registry → Result Registry
  unfolding update_store_endpoints
  write_endpoints stored broker registry = do
    unique ← update_store_endpoints r stored (object (endpoint_of broker))
    ok (record registry {
      entries = Map.set registry.entries store_endpoints_key (stringify (array (items unique)));
    })

  -- `updateStoreEndpointOfNode`.
  unfoldable pub update_store_endpoint_of_node : Broker → Text → Registry → Registry
  unfolding endpoint_of_node
  update_store_endpoint_of_node broker count registry = record registry {
    entries =
        Map.set registry.entries (store_endpoint_key broker.node_id)
          (stringify (object (endpoint_of_node broker count)));
    updates = suc registry.updates;
  }

  module _ (brokers : ℕ → Broker) where
    unfoldable pub step : Registry → Step → Result Registry
    unfolding write_endpoints update_store_endpoint_of_node
    step registry (reads n) = ok (read_by n registry)
    step registry (writes n) = write_endpoints (registry.held n) (brokers n) registry
    step registry (announces n count) =
        ok (update_store_endpoint_of_node (brokers n) count registry)
    step registry (expires key) = ok (record registry { entries = Map.delete registry.entries key })

    unfoldable pub run : Registry → List Step → Result Registry
    unfolding step
    run registry [] = ok registry
    run registry (s ∷ steps) = do registry' ← step registry s; run registry' steps
