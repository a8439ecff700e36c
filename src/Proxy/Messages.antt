-- ===== src/Proxy/Messages.antt =====
-- What a message does in ProxyWSS/index.mjs, from a socket and to the sockets.
use otmc_broker.Prelude.{
  ℕ, Text, codes, Bool, Bool-cases, ◌&&◌, List, [], ◌∷◌, ◌++◌, Option-cases, some, Option, inl, inr,
  ◌⊎◌, ◌≡◌, ◌==◌, refl, ap, append-nil, append_assoc, if◌then◌else◌,
}
use otmc_broker.TextSet
use otmc_broker.Result.{Error, ok, err, library_error, Result-cases}
use otmc_broker.Json.{Value, string, property}
use otmc_broker.Proxy.Data.{State, Bridge, Call, send, publish, called}
use otmc_broker.Proxy.Handlers.{
  Library, or_own, or_raw, to_browser, message_handler, emit_message, publish_from, publish_message,
  on_message,
}

module _ (is_open : ℕ → Bool) (client : ℕ) (topic payload : Text) where
  -- Does the message reach the socket of the bridge?
  abbrev pub is_reached : Bridge → Bool
  is_reached bridge =
      bridge.client == client && (is_open bridge.socket && TextSet.has bridge.subscriptions topic)

  unfoldable pub sends : List Bridge → List Call
  sends [] = []
  sends (bridge ∷ bridges) =
      let rest = sends bridges in
      if is_reached bridge
      then send bridge.socket (to_browser bridge.backend_id topic payload) ∷ rest
      else rest

  reached_or_not :
      (b : Bridge) (s : State)
      → (if b.client == client then message_handler b (is_open b.socket) topic payload s else s) ≡ (
          if is_reached b
          then called (send b.socket (to_browser b.backend_id topic payload)) s
          else s)
  unfolding message_handler
  reached_or_not b s = elim (Bool-cases (b.client == client)) [
    | inr other ↦ rw other refl
    | inl same ↦ elim (Bool-cases (is_open b.socket)) [
      | inr gone ↦ rw (same, gone, message_handler) refl
      | inl open_now ↦ rw (same, open_now, message_handler) refl
    ]
  ]

  -- A message of an MQTT client is sent to exactly the open sockets with a bridge to the client whose
  -- set of topics has the message's topic, once for each bridge and in the order of the bridges, and
  -- nothing else changes.
  pub emit_message_lem :
      (bridges : List Bridge) (s : State)
      → emit_message bridges is_open client topic payload s
        ≡ record s { calls = s.calls ++ sends bridges }
  unfolding emit_message message_handler sends
  emit_message_lem [] s = rw (append-nil s.calls) refl
  emit_message_lem (b ∷ bridges) s = elim (Bool-cases (is_reached b)) [
    | inl hit ↦
        let s' = called (send b.socket (to_browser b.backend_id topic payload)) s in
        rw (reached_or_not b s, hit, emit_message_lem bridges s')
          (ap (λ calls. record s { calls = calls }) (append_assoc s.calls _ _))
    | inr miss ↦ rw (reached_or_not b s, miss) (emit_message_lem bridges s)
  ]

-- What a message of a socket asks to publish: the topic of the message, or the socket's own topic if it
-- has none, and its payload, or its whole text if it has none; and the text under the own topic if that
-- fails.
pub data IsWanted (library : Library) (own raw : Text) : Value → Value → Type 0 where
  as_text : IsWanted library own raw (string own) (string raw)
  as_message :
      (message : Value) (topic payload : Option Value)
      → library.parse_json raw ≡ some message
      → property (some message) (codes "topic") ≡ ok topic
      → property (some message) (codes "payload") ≡ ok payload
      → IsWanted library own raw (or_own topic own) (or_raw payload raw)

module _ (library : Library) (bridge : Bridge) (raw : Text) (s : State) where
  publish_from_cases :
      (topic payload : Value)
      → (publish_from library bridge topic payload s
          ≡ ok (called (publish bridge.client topic payload) s))
        ⊎ ((thrown : Error) × (publish_from library bridge topic payload s ≡ err thrown))
  unfolding publish_from
  publish_from_cases topic payload = elim (Result-cases (library.mqtt_publish topic payload)) [
    | inl (done, accepted) ↦ inl (rw (accepted, publish_from) refl)
    | inr (thrown, e) ↦ inr (thrown, rw (e, publish_from) refl)
  ]

  publish_message_cases :
      ((topic : Value) × (payload : Value) × IsWanted library bridge.topic raw topic payload
        × (publish_message library bridge raw s
            ≡ ok (called (publish bridge.client topic payload) s)))
      ⊎ ((thrown : Error) × (publish_message library bridge raw s ≡ err thrown))
  unfolding publish_message
  publish_message_cases = elim (Option-cases (library.parse_json raw)) [
    | inl failed ↦ inr (library_error, rw (failed, publish_message) refl)
    | inr (message, parsed) ↦ elim (Result-cases (property (some message) (codes "topic"))) [
      | inr (thrown, e) ↦ inr (thrown, rw (parsed, publish_message, e) refl)
      | inl (topic, e) ↦ elim (Result-cases (property (some message) (codes "payload"))) [
        | inr (thrown, e') ↦ inr (thrown, rw (parsed, publish_message, e, e') refl)
        | inl (payload, e') ↦
            elim (publish_from_cases (or_own topic bridge.topic) (or_raw payload raw)) [
              | inl done ↦ inl (
                or_own topic bridge.topic,
                or_raw payload raw,
                as_message message topic payload parsed e e',
                rw (parsed, publish_message, e, e') done,
              )
              | inr (thrown, e'') ↦ inr (thrown, rw (parsed, publish_message, e, e') e'')
            ]
      ]
    ]
  ]

  -- A message of a socket with a bridge makes one publication, on the MQTT client of the bridge, or the
  -- listener throws, and then the library refuses the text of the message under the bridge's own topic.
  pub on_message_lem :
      ((topic : Value) × (payload : Value) × IsWanted library bridge.topic raw topic payload
        × (on_message library bridge raw s ≡ ok (called (publish bridge.client topic payload) s)))
      ⊎ ((thrown : Error) × (on_message library bridge raw s ≡ err thrown)
          × (library.mqtt_publish (string bridge.topic) (string raw) ≡ err thrown))
  unfolding on_message publish_from
  on_message_lem = elim publish_message_cases [
    | inl (topic, payload, wanted, e) ↦ inl (topic, payload, wanted, rw (e, on_message) refl)
    | inr (thrown, e) ↦
        elim (Result-cases (library.mqtt_publish (string bridge.topic) (string raw))) [
          | inl (done, accepted) ↦ inl (
            string bridge.topic,
            string raw,
            as_text,
            rw (e, on_message, accepted, publish_from) refl,
          )
          | inr (refused, e') ↦ inr (refused, rw (e, on_message, e', publish_from) refl, e')
        ]
  ]
