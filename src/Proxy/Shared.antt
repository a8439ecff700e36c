-- ===== src/Proxy/Shared.antt =====
-- Sockets that share the MQTT client of a backend in ProxyWSS/index.mjs: what the end of one of them,
-- and a connection while the client is not usable, do to the others.
use otmc_broker.Prelude.{
  ℕ, suc, Text, text_eq, text_eq_refl, Bool, Bool-cases, true, false, ◌&&◌, List, [], ◌∷◌, ◌++◌,
  some, inl, inr, ◌≡◌, ◌≢◌, ◌==◌, refl, sym, ◌∙◌, arith, length, append_assoc, if◌then◌else◌,
}
use otmc_broker.Map
use otmc_broker.Result.{Result, ok}
use otmc_broker.PlainObject.{Found, missing, is_present}
use otmc_broker.Proxy.Backends.{Suffixes, Backend, backend}
use otmc_broker.Proxy.Data.{State, Entry, Bridge, Call, connect, end_client, subscribe, unsubscribe}
use otmc_broker.Proxy.Pool.{
  is_usable, drop_entry, created, create_client, get_backend_client, count_socket,
  release_backend_client,
}
use otmc_broker.Proxy.Handlers.{
  Query, Library, new_bridge, add_bridge, bridge_of, without, on_close,
}
use otmc_broker.Proxy.Bridges.{bridge_of-socket}
use otmc_broker.Proxy.Admission.{Accepts, accepted_lem}
use otmc_broker.Proxy.{opened, closed, running, handle}

-- What a call leaves of an MQTT client's subscription to a topic.
abbrev pub next : ℕ → Text → Call → Bool → Bool
next client topic (subscribe c t) was = if c == client && text_eq t topic then true else was
next client topic (unsubscribe c t) was = if c == client && text_eq t topic then false else was
next client topic (end_client c) was = if c == client then false else was
next client topic call was = was

-- Is the client subscribed to the topic after the calls, the oldest of which is the first?
unfoldable pub is_subscribed : ℕ → Text → Bool → List Call → Bool
is_subscribed client topic was [] = was
is_subscribed client topic was (call ∷ calls) =
    is_subscribed client topic (next client topic call was) calls

unsubscribed_last :
    (client : ℕ) (topic : Text) (was : Bool) (calls : List Call)
    → is_subscribed client topic was (calls ++ unsubscribe client topic ∷ []) ≡ false
unfolding is_subscribed
unsubscribed_last client topic was [] = ground (arith, text_eq_refl topic)
unsubscribed_last client topic was (call ∷ calls) =
    unsubscribed_last client topic (next client topic call was) calls

bridge_of-without :
    (bridges : List Bridge) (socket other : ℕ)
    → socket ≢ other
    → bridge_of (without bridges socket) other ≡ bridge_of bridges other
unfolding bridge_of without
bridge_of-without [] socket other differ = refl
bridge_of-without (b ∷ bridges) socket other differ = elim (Bool-cases (b.socket == socket)) [
  | inl here ↦
      let miss : (b.socket == other) ≡ false = ground (arith, here, differ) in rw (here, miss) refl
  | inr there ↦ rw there (rw (bridge_of-without bridges socket other differ) refl)
]

create_known :
    (suffixes : Suffixes) (mqtt_connect : Found Backend → Result (Unit {0})) (id : Text)
    (config : Found Backend) (s : State)
    → is_present config ≡ true
    → mqtt_connect config ≡ ok tt
    → create_client suffixes mqtt_connect id config s
      ≡ ok (some (length s.clients), created id config s)
unfolding create_client
create_known suffixes mqtt_connect id missing s present made = absurd (cc present)
create_known suffixes mqtt_connect id config s present made = rw made refl

module _ (library : Library) (s : State) where
  open library use {suffixes, mqtt_connect}

  -- If two sockets have bridges for one topic of one MQTT client, and one of the sockets closes, the
  -- client is no longer subscribed to the topic, while the other socket still has its bridge.
  pub close_unsubscribes :
      (socket other : ℕ) (bridge left : Bridge)
      → bridge_of s.bridges socket ≡ some bridge
      → bridge_of s.bridges other ≡ some left
      → socket ≢ other
      → left.client ≡ bridge.client
      → left.topic ≡ bridge.topic
      → (s' : State) × (handle library (closed socket) s ≡ running s')
        × (bridge_of s'.bridges other ≡ some left)
        × (is_subscribed left.client left.topic false s'.calls ≡ false)
  unfolding handle on_close release_backend_client
  close_unsubscribes socket other bridge left e e' differ client topic = (
    on_close bridge s,
    rw (e, handle) refl,
    rw
        (bridge_of-without s.bridges bridge.socket other
          (λ same. differ (sym (bridge_of-socket s.bridges socket bridge e) ∙ same)))
        e',
    rw (client, topic) (unsubscribed_last bridge.client bridge.topic false s.calls),
  )

  -- A connection that is accepted, for a backend whose MQTT client is neither connected nor
  -- reconnecting: that client is ended, and the bridges on it stay as they are; the new socket alone is
  -- counted, on a new client.
  pub replaced_client :
      (query : Query) (id topic : Text) (entry : Entry)
      → Accepts suffixes query id topic
      → Map.get s.pools id ≡ some entry
      → is_usable (s.links entry.client) ≡ false
      → mqtt_connect (backend suffixes id) ≡ ok tt
      → (s' : State) × (handle library (opened query) s ≡ running s')
        × (Map.get s'.pools id ≡ some (record { client = length s.clients; ref_count = 1 }))
        × (s'.bridges ≡ s.bridges ++ new_bridge s.sockets id topic (length s.clients) ∷ [])
        × (s'.calls
            ≡ s.calls
              ++ end_client entry.client
                ∷ connect (length s.clients) (backend suffixes id)
                ∷ subscribe (length s.clients) topic
                ∷ [])
  unfolding handle get_backend_client drop_entry add_bridge count_socket
  replaced_client query id topic entry accepts present down made =
      let numbered : State = record s { sockets = suc s.sockets } in
      let replaced : State = created id (backend suffixes id) (drop_entry id entry numbered) in
      (
        add_bridge s.sockets id topic (some (length s.clients), replaced),
        rw
            (
              handle,
              accepted_lem library s.sockets query numbered id topic accepts,
              get_backend_client,
              present,
              down,
              create_known suffixes mqtt_connect id (backend suffixes id)
                  (drop_entry id entry numbered) accepts.backend.present made,
            )
            refl,
        rw (Map.get-set, text_eq_refl id, Map.get-set, text_eq_refl id) refl,
        refl,
        rw (append_assoc, append_assoc) refl,
      )
