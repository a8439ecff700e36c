-- ===== src/Examples/Registry.antt =====
-- A broker that registers among the endpoints in Redis.
use otmc_broker.Prelude.{
  false, arith, ℕ, text_eq, none, ◌==◌, if◌then◌else◌, Text, codes, List, [], ◌∷◌, some, ◌≡◌, refl,
}
use otmc_broker.Json.{Value, string, array, nil, field, end}
use otmc_broker.Result.{ok}
use otmc_broker.Endpoints.{update_store_endpoints}
use otmc_broker.Endpoints.Unique.{IsUpdated, update_store_endpoints-IsUpdated}
use otmc_broker.Runtime.{Runtime}
use otmc_broker.Gateway.Nodes.{get_all_backends}
use otmc_broker.Registration.Backend.{registered_has_backend}
use otmc_broker.Gateway.Haproxy.{State, backend_file, generate_backend_config}
use otmc_broker.Gateway.Files.{IsPlainId}
use otmc_broker.Gateway.Sync.{listed}
use otmc_broker.Gateway.{main, running}
use otmc_broker.Examples.Nodes.{haproxy, works, before}
use otmc_broker.Map
use otmc_broker.TextSet
use otmc_broker.Registration.{Broker, Registry, empty, reads, writes, announces, run}
use otmc_broker.Registration.Found.{
  IsReadable, list_of, node_of, peer_of, redis_of, written_last_is_found,
}
use otmc_broker.Examples.Setup.{runtime, endpoint}

abbrev written : List Value
written = endpoint "a" "1" ∷ endpoint "b" "2" ∷ []

own_written :
    update_store_endpoints runtime (some (codes "endpoints")) (endpoint "a" "1") ≡ ok written
unfolding update_store_endpoints otmc_broker.Prelude.text_eq otmc_broker.Json.property
    otmc_broker.Map.set otmc_broker.Json.key_text otmc_broker.Json.field_value
    otmc_broker.Json.to_text
own_written = refl

update_store_endpoints-IsUpdated_example :
    IsUpdated runtime (some (codes "endpoints")) (endpoint "a" "1") written
update_store_endpoints-IsUpdated_example =
    update_store_endpoints-IsUpdated runtime (some (codes "endpoints")) (endpoint "a" "1") written
      own_written

abbrev broker : Broker
broker = record {
  node_id = codes "n1";
  public_key = codes "k";
  mqtt = field (codes "host") (string (codes "h")) (field (codes "port") (string (codes "1")) end);
}

abbrev texts_of : Value → Text
texts_of (array endpoints) = codes "list"
texts_of value = codes "node"

-- A runtime that reads back what the broker writes.
abbrev reading : Runtime
reading = record runtime {
  stringify = texts_of;
  parse_json = λ t.
      if text_eq t (codes "list")
      then some (list_of broker)
      else if text_eq t (codes "node")
      then some (node_of broker (codes "0"))
      else if text_eq t (codes "[]")
      then some (array nil)
      else none;
}

readable : IsReadable reading broker (codes "0")
unfolding text_eq otmc_broker.PlainObject.is_inherited otmc_broker.TextSet.has
readable = record {
  list = record { parsed = refl; not_empty = refl };
  node = record { parsed = refl; not_empty = refl };
  own_name = refl;
}

plain : IsPlainId (codes "n1")
plain = ((λ e. omega (arith, e)), ((λ e. omega (arith, e)), tt))

unlisted : TextSet.has (listed haproxy works 0) (codes "n1") ≡ false
unfolding TextSet.has otmc_broker.Gateway.Haproxy.matches otmc_broker.Prelude.split
    otmc_broker.Gateway.Haproxy.trim otmc_broker.Gateway.Haproxy.concat text_eq
unlisted = refl

registered_has_backend_example :
    (registry : Registry) × (s' : State) × (run reading
        (λ n. broker)
        empty
        (reads 1 ∷ writes 1 ∷ announces 1 (codes "0") ∷ [])
      ≡ ok registry)
    × (main haproxy (redis_of reading registry) (running before) ≡ running s')
    × (Map.get s'.files (backend_file (codes "n1"))
        ≡ some (generate_backend_config (codes "n1") (peer_of broker)))
unfolding text_eq
registered_has_backend_example =
    registered_has_backend reading (λ n. broker) 1 (codes "0") haproxy refl readable plain works
      before unlisted

-- The other broker has number 0.
abbrev two : ℕ → Broker
two n = if n == 1 then broker else record broker { node_id = codes "n0" }

written_last_is_found_example :
    (registry : Registry) × (run reading two empty (
        reads 0
        ∷ reads 1
        ∷ writes 0
        ∷ writes 1
        ∷ announces 0 (codes "5")
        ∷ announces 1 (codes "0")
        ∷ [])
      ≡ ok registry)
    × (get_all_backends (redis_of reading registry) ≡ ok ((codes "n1", peer_of broker) ∷ []))
unfolding text_eq
written_last_is_found_example =
    written_last_is_found reading refl two 1 (codes "0") 0 (codes "5") readable
