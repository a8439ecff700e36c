-- ===== src/Registration/Found.antt =====
-- What HAProxy_Gate finds of the brokers that register with Nodejs_Broker/redis_config.mjs.
use otmc_broker.Prelude.{
  ℕ, Text, codes, text_eq, text_eq_refl, is_empty, Bool, true, false, [], ◌∷◌, Option, none, some,
  ◌≡◌, ◌∙◌, ◌==◌, refl, if◌then◌else◌,
}
use otmc_broker.Map
use otmc_broker.Map.{Map}
use otmc_broker.Result.{ok}
use otmc_broker.Json.{
  Value, string, array, object, nil, field_value, property, truthy, iterate, key_text, to_text,
}
use otmc_broker.PlainObject.{is_inherited, member}
use otmc_broker.Runtime.{Runtime}
use otmc_broker.Endpoints.{own_fields, update_store_endpoints, pushed, by_address, endpoint_address}
use otmc_broker.Endpoints.Assigned.{field_value-set_field}
use otmc_broker.Gateway.Nodes.{Peer, Redis, add_node, read_nodes, get_all_backends}
use otmc_broker.Registration.{
  Broker, Registry, empty, items, endpoint_of, endpoint_of_node, store_endpoints_key,
  store_endpoint_key, read_by, reads, writes, announces, write_endpoints,
  update_store_endpoint_of_node, step, run,
}

-- The node id and the address that a broker writes.
own_id :
    (broker : Broker)
    → field_value (endpoint_of broker) (codes "nodeId") ≡ some (string broker.node_id)
unfolding own_fields text_eq
own_id broker = rw (own_fields, field_value-set_field) refl

id_of_node :
    (broker : Broker) (count : Text)
    → field_value (endpoint_of_node broker count) (codes "nodeId") ≡ some (string broker.node_id)
unfolding endpoint_of_node own_fields text_eq
id_of_node broker count =
    rw (endpoint_of_node, field_value-set_field, field_value-set_field, field_value-set_field)
      (own_id broker)

abbrev pub peer_of : Broker → Peer
peer_of broker = record {
  host = field_value broker.mqtt (codes "host");
  port = field_value broker.mqtt (codes "port");
}

host_of_node :
    (broker : Broker) (count : Text)
    → field_value (endpoint_of_node broker count) (codes "host") ≡ (peer_of broker).host
unfolding endpoint_of_node own_fields text_eq
host_of_node broker count =
    rw
      (
        endpoint_of_node, own_fields, field_value-set_field, field_value-set_field,
        field_value-set_field, field_value-set_field, field_value-set_field, field_value-set_field,
      )
      refl

port_of_node :
    (broker : Broker) (count : Text)
    → field_value (endpoint_of_node broker count) (codes "port") ≡ (peer_of broker).port
unfolding endpoint_of_node own_fields text_eq
port_of_node broker count =
    rw
      (
        endpoint_of_node, own_fields, field_value-set_field, field_value-set_field,
        field_value-set_field, field_value-set_field, field_value-set_field, field_value-set_field,
      )
      refl

-- The gateway's view of the registry.
abbrev pub redis_of : Runtime → Registry → Redis
redis_of r registry = record {
  get = λ key. ok (Map.get registry.entries key);
  parse_json = r.parse_json;
}

-- `JSON.parse` reads the value from what `JSON.stringify` makes of it, which is no empty text.
pub record ReadsBack (r : Runtime) (value : Value) : Type 0 where
  pub parsed : r.parse_json (r.stringify value) ≡ some value
  pub not_empty : is_empty (r.stringify value) ≡ false

abbrev pub list_of : Broker → Value
list_of broker = array (items (object (endpoint_of broker) ∷ []))

abbrev pub node_of : Broker → Text → Value
node_of broker count = object (endpoint_of_node broker count)

module _ (r : Runtime) (broker : Broker) (count : Text) where
  -- The broker's list and entry are read back, and its id is no member that objects inherit.
  pub record IsReadable : Type 0 where
    pub list : ReadsBack r (list_of broker)
    pub node : ReadsBack r (node_of broker count)
    pub own_name : is_inherited broker.node_id ≡ false

  -- The list holds the broker alone, and its entry is there.
  record IsListed (registry : Registry) : Type 0 where
    list : Map.get registry.entries store_endpoints_key ≡ some (r.stringify (list_of broker))
    node :
        Map.get registry.entries (store_endpoint_key broker.node_id)
        ≡ some (r.stringify (node_of broker count))

  found_alone :
      (registry : Registry)
      → IsReadable
      → IsListed registry
      → get_all_backends (redis_of r registry) ≡ ok ((broker.node_id, peer_of broker) ∷ [])
  unfolding get_all_backends read_nodes add_node property iterate key_text to_text truthy member
      Map.get Map.set
  found_alone registry back listed =
      rw
        (
          get_all_backends,
          listed.list,
          back.list.not_empty,
          back.list.parsed,
          read_nodes,
          own_id broker,
          listed.node,
          back.node.not_empty,
          back.node.parsed,
          host_of_node broker count,
          port_of_node broker count,
          id_of_node broker count,
          back.own_name,
        )
        refl

-- A list that was read twice, when there was none.
none_read : (b c : Bool) → ◌≡◌ {A = Option Text} (if b then none else if c then none else none) none
none_read true c = refl
none_read false true = refl
none_read false false = refl

module _ (r : Runtime) (no_endpoints : r.parse_json (codes "[]") ≡ some (array nil)) where
  -- The list that a broker writes if it has read none.
  alone_in_list :
      (broker : Broker)
      → update_store_endpoints r none (object (endpoint_of broker))
        ≡ ok (object (endpoint_of broker) ∷ [])
  unfolding update_store_endpoints pushed by_address endpoint_address property Map.set
  alone_in_list broker = rw (update_store_endpoints, no_endpoints) refl

  abbrev with_list : Broker → Registry → Registry
  with_list broker registry = record registry {
    entries = Map.set registry.entries store_endpoints_key (r.stringify (list_of broker));
  }

  list_written :
      (broker : Broker) (registry : Registry)
      → Map.get (with_list broker registry).entries store_endpoints_key
        ≡ some (r.stringify (list_of broker))
  list_written broker registry = rw (Map.get-set, text_eq_refl store_endpoints_key) refl

  list_kept :
      (broker : Broker) (count : Text) (registry : Registry)
      → Map.get (update_store_endpoint_of_node r broker count registry).entries store_endpoints_key
        ≡ Map.get registry.entries store_endpoints_key
  unfolding update_store_endpoint_of_node text_eq
  list_kept broker count registry = rw (update_store_endpoint_of_node, Map.get-set) refl

  writes_alone :
      (stored : Option Text) (broker : Broker) (registry : Registry)
      → stored ≡ none
      → write_endpoints r stored broker registry ≡ ok (with_list broker registry)
  unfolding write_endpoints
  writes_alone stored broker registry none_read =
      rw (write_endpoints, none_read, alone_in_list broker) refl

  module _ (brokers : ℕ → Broker) (n : ℕ) (count : Text) where
    abbrev broker : Broker
    broker = brokers n

    announced-IsListed :
        (registry : Registry)
        → Map.get registry.entries store_endpoints_key ≡ some (r.stringify (list_of broker))
        → IsListed r broker count (update_store_endpoint_of_node r broker count registry)
    unfolding update_store_endpoint_of_node text_eq
    announced-IsListed registry there = record {
      list = list_kept broker count registry ∙ there;
      node = rw (update_store_endpoint_of_node, Map.get-set, text_eq_refl broker.node_id) refl;
    }

    -- A broker that reads and writes the list and its own entry, in a Redis that was empty, is the one
    -- node that the gateway finds, with the broker's host and port. It is assumed that JSON reads back
    -- what the broker writes.
    pub registered_is_found :
        IsReadable r broker count
        → (registry : Registry) × (run r brokers empty (reads n ∷ writes n ∷ announces n count ∷ [])
            ≡ ok registry)
          × (get_all_backends (redis_of r registry) ≡ ok ((broker.node_id, peer_of broker) ∷ []))
    unfolding run step Map.get
    registered_is_found back =
        let s : Registry = read_by n empty in
        let registry : Registry =
          update_store_endpoint_of_node r broker count (with_list broker s) in
        (
          registry,
          rw (writes_alone (s.held n) broker s (none_read (n == n) false)) refl,
          found_alone r broker count registry back
              (announced-IsListed (with_list broker s) (list_written broker s)),
        )

    -- Two brokers that both read the list, in a Redis that was empty, before either writes it, and then
    -- write their own entries: the gateway finds the one alone that wrote the list last.
    pub written_last_is_found :
        (first : ℕ) (count' : Text)
        → IsReadable r broker count
        → (registry : Registry) × (run r brokers empty (
              reads first
              ∷ reads n
              ∷ writes first
              ∷ writes n
              ∷ announces first count'
              ∷ announces n count
              ∷ [])
            ≡ ok registry)
          × (get_all_backends (redis_of r registry) ≡ ok ((broker.node_id, peer_of broker) ∷ []))
    unfolding run step Map.get
    written_last_is_found first count' back =
        let s : Registry = read_by n (read_by first empty) in
        let s1 : Registry = with_list (brokers first) s in
        let s2 : Registry = with_list broker s1 in
        let s3 : Registry = update_store_endpoint_of_node r (brokers first) count' s2 in
        let registry : Registry = update_store_endpoint_of_node r broker count s3 in
        (
          registry,
          rw
              (
                writes_alone (s.held first) (brokers first) s
                    (none_read (n == first) (first == first)),
                writes_alone (s1.held n) broker s1 (none_read (n == n) (first == n)),
              )
              refl,
          found_alone r broker count registry back (
              announced-IsListed s3 (list_kept (brokers first) count' s2 ∙ list_written broker s1)),
        )
