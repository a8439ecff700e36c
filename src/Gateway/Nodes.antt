-- ===== src/Gateway/Nodes.antt =====
-- HAProxy_Gate/dynamic-backend/backend_redis.mjs: the broker nodes that Redis has. The answers of Redis
-- and `JSON.parse` are parameters.
pub mod Sound
use otmc_broker.Prelude.{
  Text, codes, is_empty, Bool, true, List, [], ◌∷◌, ◌++◌, Option, none, some, if◌then◌else◌,
}
use otmc_broker.Map
use otmc_broker.Map.{Map}
use otmc_broker.Result.{Result, ok, err, library_error, ◌>>=◌}
use otmc_broker.Json.{Value, null, array, nil, property, truthy, iterate, key_text}
use otmc_broker.PlainObject.{Found, missing, inherited, found, member, is_present}

pub record Peer : Type 0 where
  pub host : Option Value
  pub port : Option Value

-- `cluster.get`, and `JSON.parse`, which is `none` if it throws.
pub record Redis : Type 0 where
  pub get : Text → Result (Option Text)
  pub parse_json : Text → Option Value

abbrev pub endpoints_key : Text
endpoints_key = codes "otmc:broker:store:endpoints"

abbrev pub endpoint_key : Text → Text
endpoint_key node_id = codes "otmc:broker:store:endpoint" ++ b':' ∷ node_id

-- `backEndsOfHaproxy[nodeId]` is written unless it is truthy.
abbrev pub add_peer : Found Peer → Text → Peer → Map Peer → Map Peer
add_peer missing node_id peer backends = Map.set backends node_id peer
add_peer present node_id peer backends = backends

-- One endpoint with the value that is stored for it.
unfoldable pub add_node : Option Value → Map Peer → Result (Map Peer)
unfolding member
add_node value backends =
    if truthy value
    then (do
      host ← property value (codes "host")
      port ← property value (codes "port")
      node_id ← property value (codes "nodeId")
      ok (
          add_peer (member backends (key_text node_id)) (key_text node_id)
            (record { host = host; port = port }) backends))
    else ok backends

module _ (redis : Redis) where
  open redis use {get, parse_json}

  abbrev pub parse_or_throw : Option Value → Result Value
  parse_or_throw none = err library_error
  parse_or_throw (some value) = ok value

  -- `text ? JSON.parse(text) : …`.
  abbrev pub parsed_or : Option Text → Option Value → Result (Option Value)
  parsed_or none default = ok default
  parsed_or (some t) default =
      if is_empty t then ok default else (do value ← parse_or_throw (parse_json t); ok (some value))

  unfoldable pub read_nodes : List Value → Map Peer → Result (Map Peer)
  unfolding add_node
  read_nodes [] backends = ok backends
  read_nodes (endpoint ∷ endpoints) backends = do
    node_id ← property (some endpoint) (codes "nodeId")
    stored ← get (endpoint_key (key_text node_id))
    value ← parsed_or stored (some null)
    backends' ← add_node value backends
    read_nodes endpoints backends'

  unfoldable pub get_all_backends : Result (Map Peer)
  unfolding read_nodes
  get_all_backends = do
    stored ← get endpoints_key
    value ← parsed_or stored (some (array nil))
    endpoints ← iterate value
    read_nodes endpoints []
