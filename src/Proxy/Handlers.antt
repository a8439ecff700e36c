-- ===== src/Proxy/Handlers.antt =====
-- The handlers of a socket in ProxyWSS/index.mjs, and what they ask of ws and mqtt.
use otmc_broker.Prelude.{
  ℕ, Text, codes, is_empty, Bool, not, List, [], ◌∷◌, ◌++◌, Option, none, some, ◌==◌, if◌then◌else◌,
}
use otmc_broker.TextSet
use otmc_broker.Result.{Result, ok, err, library_error, ◌>>=◌}
use otmc_broker.Json.{Value, string, object, field, end, property, truthy}
use otmc_broker.PlainObject.{Found, is_present}
use otmc_broker.Proxy.Backends.{Suffixes, Backend, backend, is_valid_token}
use otmc_broker.Proxy.Data.{State, Bridge, close, send, subscribe, unsubscribe, publish, called}
use otmc_broker.Proxy.Pool.{get_backend_client, release_backend_client, count_socket}

-- The parameters of the URL, each of which is given at most once.
pub record Query : Type 0 where
  pub token : Option Text
  pub backend : Option Text
  pub topic : Option Text

-- A parameter that is missing or empty is falsy.
abbrev pub given : Option Text → Option Text
given none = none
given (some t) = if is_empty t then none else some t

-- What the library does: `JSON.parse`, and whether `mqtt.connect` and `publish` throw.
pub record Library : Type 1 where
  pub suffixes : Suffixes
  pub parse_json : Text → Option Value
  pub mqtt_connect : Found Backend → Result (Unit {0})
  pub mqtt_publish : Value → Value → Result (Unit {0})

-- `msg.topic || topic`.
abbrev pub or_own : Option Value → Text → Value
or_own none own = string own
or_own (some topic) own = if truthy (some topic) then topic else string own

-- `msg.payload !== undefined ? msg.payload : raw.toString()`.
abbrev pub or_raw : Option Value → Text → Value
or_raw none raw = string raw
or_raw (some payload) raw = payload

abbrev pub new_bridge : ℕ → Text → Text → ℕ → Bridge
new_bridge socket id topic client = record {
  socket = socket;
  backend_id = id;
  topic = topic;
  client = client;
  subscriptions = topic ∷ [];
}

-- The rest of the handler once there is an MQTT client.
unfoldable pub add_bridge : ℕ → Text → Text → Option ℕ × State → State
unfolding count_socket
add_bridge socket id topic (none, s) = called (close socket 4003 (codes "Backend unavailable")) s
add_bridge socket id topic (some client, s) =
    let s' = count_socket id s in
    record (called (subscribe client topic) s') {
      bridges = s'.bridges ++ new_bridge socket id topic client ∷ [];
    }

module _ (library : Library) where
  open library use {suffixes, parse_json, mqtt_connect, mqtt_publish}

  -- The listener of `connection`.
  unfoldable pub on_connection : ℕ → Query → State → Result State
  unfolding get_backend_client add_bridge
  on_connection socket query s = elim (given query.token) [
    | none ↦ ok (called (close socket 4001 (codes "Unauthorized")) s)
    | some token ↦
        if not (is_valid_token token)
        then ok (called (close socket 4001 (codes "Unauthorized")) s)
        else elim (given query.backend) [
          | none ↦ ok (called (close socket 4003 (codes "Unknown backend")) s)
          | some id ↦
              if not (is_present (backend suffixes id))
              then ok (called (close socket 4003 (codes "Unknown backend")) s)
              else elim (given query.topic) [
                | none ↦ ok (called (close socket 4002 (codes "Missing topic")) s)
                | some topic ↦ do
                  got ← get_backend_client suffixes mqtt_connect id s
                  ok (add_bridge socket id topic got)
              ]
        ]
  ]

  -- `mqttClient.publish`.
  unfoldable pub publish_from : Bridge → Value → Value → State → Result State
  publish_from bridge topic payload s = do
    accepted ← mqtt_publish topic payload
    ok (called (publish bridge.client topic payload) s)

  -- What is in the `try`.
  unfoldable pub publish_message : Bridge → Text → State → Result State
  unfolding publish_from
  publish_message bridge raw s = elim (parse_json raw) [
    | none ↦ err library_error
    | some message ↦ do
      topic ← property (some message) (codes "topic")
      payload ← property (some message) (codes "payload")
      publish_from bridge (or_own topic bridge.topic) (or_raw payload raw) s
  ]

  -- The listener of `message`.
  unfoldable pub on_message : Bridge → Text → State → Result State
  unfolding publish_message publish_from
  on_message bridge raw s = elim (publish_message bridge raw s) [
    | ok s' ↦ ok s'
    | err thrown ↦ publish_from bridge (string bridge.topic) (string raw) s
  ]

-- What is sent to the browser.
unfoldable pub to_browser : Text → Text → Text → Value
to_browser backend_id topic payload = object (
    field (codes "backend") (string backend_id)
      (field (codes "topic") (string topic) (field (codes "payload") (string payload) end)))

-- `messageHandler`; `is_open` says whether the socket is open.
unfoldable pub message_handler : Bridge → Bool → Text → Text → State → State
unfolding to_browser
message_handler bridge is_open topic payload s =
    if not is_open
    then s
    else if TextSet.has bridge.subscriptions topic
    then called (send bridge.socket (to_browser bridge.backend_id topic payload)) s
    else s

-- The listeners of an MQTT client's `message`, in the order in which they were added.
unfoldable pub emit_message : List Bridge → (ℕ → Bool) → ℕ → Text → Text → State → State
unfolding message_handler
emit_message [] is_open client topic payload s = s
emit_message (bridge ∷ bridges) is_open client topic payload s =
    emit_message bridges is_open client topic payload (
      if bridge.client == client
      then message_handler bridge (is_open bridge.socket) topic payload s
      else s)

-- The bridge of a socket.
unfoldable pub bridge_of : List Bridge → ℕ → Option Bridge
bridge_of [] socket = none
bridge_of (bridge ∷ bridges) socket =
    if bridge.socket == socket then some bridge else bridge_of bridges socket

unfoldable pub without : List Bridge → ℕ → List Bridge
without [] socket = []
without (bridge ∷ bridges) socket =
    let rest = without bridges socket in if bridge.socket == socket then bridges else bridge ∷ rest

-- The listener of `close`.
unfoldable pub on_close : Bridge → State → State
unfolding release_backend_client without
on_close bridge s = release_backend_client bridge.backend_id (
    called (unsubscribe bridge.client bridge.topic)
      (record s { bridges = without s.bridges bridge.socket }))
