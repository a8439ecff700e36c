-- ===== src/Proxy/Asked/Handlers.antt =====
-- Every call that ProxyWSS/index.mjs makes for a socket stays asked for.
use otmc_broker.Prelude.{
  ℕ, Text, text_eq_iff, Bool, Bool-cases, true, not, ◌&&◌, ◌==◌, List, [], ◌∷◌, ◌++◌, Option,
  Option-cases, none, some, inl, inr, ◌≡◌, ◌∙◌, refl, subst, arith, get_elem?, length,
  get_elem?-append, All, All-append, All_map,
}
use otmc_broker.Map
use otmc_broker.TextSet
use otmc_broker.Result.{Result, ok, err, Result-cases, Holds, ◌>>=◌}
use otmc_broker.PlainObject.{Found, missing}
use otmc_broker.Proxy.Backends.{Backend, backend}
use otmc_broker.Proxy.Data.{State, Bridge, Call, send, end_client, subscribe, publish}
use otmc_broker.Proxy.Pool.{
  is_usable, drop_entry, create_client, get_backend_client, clean_up, release_backend_client,
  count_socket,
}
use otmc_broker.Proxy.Handlers.{Query, Library, add_bridge, on_connection, on_message, on_close}
use otmc_broker.Proxy.Bridges.{without-All}
use otmc_broker.Proxy.Admission.{
  on_connection_lem, unauthorized, unknown_backend, missing_topic, accepted,
}
use otmc_broker.Proxy.Messages.{sends, is_reached, on_message_lem}
use otmc_broker.Proxy.Asked.{
  queries, queries-append, Allowed, Said, IsAsked, IsAskedBridge, AllAsked,
}
use otmc_broker.Proxy.Counted.{IsCounted}
use otmc_broker.Proxy.Invariant.{IsGot, get_backend_client-IsCounted}
use otmc_broker.Proxy.{Event, said}

module _ (library : Library) (events later : List Event) where
  Allowed-grown :
      (socket : ℕ) (id topic : Text)
      → Allowed library events socket id topic
      → Allowed library (events ++ later) socket id topic
  Allowed-grown socket id topic a = record {
    query = a.query;
    made =
        rw (queries-append events later)
          (get_elem?-append (queries events) (queries later) socket a.query a.made);
    accepts = a.accepts;
  }

  Said-grown :
      (socket : ℕ) (raw : Text)
      → Said library events socket raw
      → Said library (events ++ later) socket raw
  Said-grown socket raw (n, at) = (n, get_elem?-append events later n (said socket raw) at)

  pub IsAsked-grown :
      (clients : List Text) (call : Call)
      → IsAsked library events clients call
      → IsAsked library (events ++ later) clients call
  IsAsked-grown clients (send socket message) (id, topic, payload, a, e) =
      (id, topic, payload, Allowed-grown socket id topic a, e)
  IsAsked-grown clients (subscribe client topic) (socket, id, a, own_client) =
      (socket, id, Allowed-grown socket id topic a, own_client)
  IsAsked-grown clients (publish client topic payload) (socket, id, own, raw, a, c, told, w) =
      (socket, id, own, raw, Allowed-grown socket id own a, c, Said-grown socket raw told, w)
  IsAsked-grown clients call a = tt

  pub grown :
      (s : State) (sockets : ℕ)
      → sockets ≡ length (queries (events ++ later))
      → AllAsked library events s
      → AllAsked library (events ++ later) (record s { sockets = sockets })
  grown s sockets numbered v = record {
    numbered = numbered;
    bridges =
        All_map (IsAskedBridge library events) _ s.bridges
          (λ b a. record {
            allowed = Allowed-grown b.socket b.backend_id b.topic a.allowed;
            own_topic = a.own_topic;
          })
          v.bridges;
    calls = All_map (IsAsked library events s.clients) _ s.calls (IsAsked-grown s.clients) v.calls;
  }

-- New clients come last.
pub IsAsked-served :
    (library : Library) (events : List Event) (clients more : List Text) (call : Call)
    → IsAsked library events clients call
    → IsAsked library events (clients ++ more) call
IsAsked-served library events clients more (send socket message) a = a
IsAsked-served library events clients more (subscribe client topic) (socket, id, a, own_client) =
    (socket, id, a, get_elem?-append clients more client id own_client)
IsAsked-served library events clients more (publish client topic payload)
      (socket, id, own, raw, a, c, told, w) =
    (socket, id, own, raw, a, get_elem?-append clients more client id c, told, w)
IsAsked-served library events clients more call a = tt

-- A step that leaves the bridges and the clients and asks for more calls.
pub more_calls :
    (library : Library) (events : List Event) (s s' : State) (calls : List Call)
    → s'.sockets ≡ s.sockets
    → s'.bridges ≡ s.bridges
    → s'.clients ≡ s.clients
    → s'.calls ≡ s.calls ++ calls
    → All (IsAsked library events s.clients) calls
    → AllAsked library events s
    → AllAsked library events s'
more_calls library events s s' calls sockets bridges clients all asked v = record {
  numbered = sockets ∙ v.numbered;
  bridges = rw bridges v.bridges;
  calls = rw (clients, all) (All-append _ s.calls calls v.calls asked);
}

module _ (library : Library) (events : List Event) where
  open library use {suffixes, mqtt_connect}

  create_client-AllAsked :
      (id : Text) (config : Found Backend) (s : State)
      → AllAsked library events s
      → Holds
          (λ got. AllAsked library events got.1)
          (create_client suffixes mqtt_connect id config s)
  unfolding create_client
  create_client-AllAsked id missing s v = v
  create_client-AllAsked id config s v = elim (Result-cases (mqtt_connect config)) [
    | inl (t, made) ↦ rw made (record {
      numbered = v.numbered;
      bridges = v.bridges;
      calls =
          All-append _ s.calls _
            (All_map _ _ s.calls (IsAsked-served library events s.clients (id ∷ [])) v.calls)
            (tt, tt);
    })
    | inr (e, thrown) ↦ rw thrown tt
  ]

  get_backend_client-AllAsked :
      (id : Text) (s : State)
      → AllAsked library events s
      → Holds (λ got. AllAsked library events got.1) (get_backend_client suffixes mqtt_connect id s)
  unfolding get_backend_client drop_entry
  get_backend_client-AllAsked id s v = elim (Option-cases (Map.get s.pools id)) [
    | inl absent ↦ rw (absent, Holds) (create_client-AllAsked id (backend suffixes id) s v)
    | inr (entry, present) ↦ elim (Bool-cases (is_usable (s.links entry.client))) [
      | inl usable ↦ rw (present, usable, Holds) v
      | inr down ↦
          rw (present, down, Holds)
            (create_client-AllAsked id (backend suffixes id) (drop_entry id entry s) (
              more_calls library events s _ (end_client entry.client ∷ []) refl refl refl refl
                (tt, tt) v))
    ]
  ]

module _ (library : Library) where
  open library use {suffixes, mqtt_connect}

  add_bridge-AllAsked :
      (events : List Event) (socket : ℕ) (id topic : Text) (got : Result (Option ℕ × State))
      → Allowed library events socket id topic
      → Holds (IsGot id) got
      → Holds (λ pair. AllAsked library events pair.1) got
      → Holds (AllAsked library events) (got >>= λ pair. ok (add_bridge socket id topic pair))
  unfolding add_bridge count_socket
  add_bridge-AllAsked events socket id topic (err thrown) a g v = tt
  add_bridge-AllAsked events socket id topic (ok (none, s)) a g v =
      more_calls library events s _ _ refl refl refl refl (tt, tt) v
  add_bridge-AllAsked events socket id topic (ok (some client, s)) a g v = record {
    numbered = v.numbered;
    bridges = All-append _ s.bridges _ v.bridges (record { allowed = a; own_topic = refl }, tt);
    calls = All-append _ s.calls _ v.calls ((socket, id, a, g.1), tt);
  }

  pub on_connection-AllAsked :
      (events : List Event) (socket : ℕ) (query : Query) (s : State)
      → get_elem? (queries events) socket ≡ some query
      → IsCounted s
      → AllAsked library events s
      → Holds (AllAsked library events) (on_connection library socket query s)
  on_connection-AllAsked events socket query s made c v =
      elim (on_connection_lem library socket query s) [
        | unauthorized wrong e ↦
            rw e (more_calls library events s _ _ refl refl refl refl (tt, tt) v)
        | unknown_backend right unknown e ↦
            rw e (more_calls library events s _ _ refl refl refl refl (tt, tt) v)
        | missing_topic id right known no_topic e ↦
            rw e (more_calls library events s _ _ refl refl refl refl (tt, tt) v)
        | accepted id topic accepts e ↦ rw e (
            add_bridge-AllAsked events socket id topic
              (get_backend_client suffixes mqtt_connect id s)
              (record { query = query; made = made; accepts = accepts })
              (get_backend_client-IsCounted suffixes mqtt_connect id s c)
              (get_backend_client-AllAsked library events id s v))
      ]

  pub on_message-AllAsked :
      (events : List Event) (bridge : Bridge) (raw : Text) (s : State)
      → IsAskedBridge library events bridge
      → get_elem? s.clients bridge.client ≡ some bridge.backend_id
      → Said library events bridge.socket raw
      → AllAsked library events s
      → Holds (AllAsked library events) (on_message library bridge raw s)
  on_message-AllAsked events bridge raw s a c told v = elim (on_message_lem library bridge raw s) [
    | inl (topic, payload, wanted, e) ↦ rw e (
        more_calls library events s _ (publish bridge.client topic payload ∷ []) refl refl refl refl
          ((bridge.socket, bridge.backend_id, bridge.topic, raw, a.allowed, c, told, wanted), tt) v)
    | inr (thrown, e, refused) ↦ rw e tt
  ]

module _ (library : Library) (events : List Event) where
  reached_topic :
      (is_open : ℕ → Bool) (client : ℕ) (topic payload : Text) (b : Bridge)
      → IsAskedBridge library events b
      → is_reached is_open client topic payload b ≡ true
      → b.topic ≡ topic
  unfolding TextSet.has
  reached_topic is_open client topic payload b a hit =
      ground (arith, rw a.own_topic at hit, text_eq_iff b.topic topic, text_eq_iff topic b.topic)

  pub sends-IsAsked :
      (clients : List Text) (is_open : ℕ → Bool) (client : ℕ) (topic payload : Text)
      (bridges : List Bridge)
      → All (IsAskedBridge library events) bridges
      → All (IsAsked library events clients) (sends is_open client topic payload bridges)
  unfolding sends
  sends-IsAsked clients is_open client topic payload [] all = tt
  sends-IsAsked clients is_open client topic payload (b ∷ bridges) all =
      elim (Bool-cases (is_reached is_open client topic payload b)) [
        | inr miss ↦ rw miss (sends-IsAsked clients is_open client topic payload bridges all.1)
        | inl hit ↦ rw hit (
          (
            b.backend_id,
            topic,
            payload,
            subst (Allowed library events b.socket b.backend_id)
                (reached_topic is_open client topic payload b all.0 hit) all.0.allowed,
            refl,
          ),
          sends-IsAsked clients is_open client topic payload bridges all.1,
        )
      ]

  pub on_close-AllAsked :
      (bridge : Bridge) (s : State)
      → AllAsked library events s
      → AllAsked library events (on_close bridge s)
  unfolding on_close release_backend_client
  on_close-AllAsked bridge s v = record {
    numbered = v.numbered;
    bridges = without-All _ s.bridges bridge.socket v.bridges;
    calls = All-append _ s.calls _ v.calls (tt, tt);
  }

  pub clean_up-AllAsked :
      (id : Text) (s : State) → AllAsked library events s → AllAsked library events (clean_up id s)
  unfolding clean_up drop_entry
  clean_up-AllAsked id s v = elim (Option-cases (Map.get s.pools id)) [
    | inl absent ↦ rw (absent, clean_up) v
    | inr (entry, present) ↦
        elim (Bool-cases (not (s.links entry.client).connected && entry.ref_count == 0)) [
          | inl unused ↦
              rw (present, unused, clean_up, drop_entry)
                (more_calls library events s _ (end_client entry.client ∷ []) refl refl refl refl
                  (tt, tt) v)
          | inr used ↦ rw (present, used, clean_up) v
        ]
  ]
