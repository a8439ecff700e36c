-- ===== src/Proxy/Invariant.antt =====
-- The counts of the pool of ProxyWSS/index.mjs, whatever happens.
use otmc_broker.Prelude.{
  ℕ, Text, Bool-cases, List, [], ◌∷◌, ◌++◌, Option, Option-cases, none, some, inl, inr, ◌≡◌, arith,
  get_elem?, length, get_elem?-append, get_elem?-length, All_map, subst,
}
use otmc_broker.Map
use otmc_broker.Map.Entries.{set-AllEntries}
use otmc_broker.Result.{Result, ok, err, ◌>>=◌, Result-cases, Holds}
use otmc_broker.PlainObject.{Found, missing, inherited, found}
use otmc_broker.Proxy.Backends.{Suffixes, Backend, backend}
use otmc_broker.Proxy.Data.{State, Entry, Bridge, Call, Link, start}
use otmc_broker.Proxy.Pool.{is_usable, drop_entry, create_client, get_backend_client}
use otmc_broker.Proxy.Handlers.{Query, Library, add_bridge, on_connection, on_message, bridge_of}
use otmc_broker.Proxy.Bridges.{bridge_of_own}
use otmc_broker.Proxy.Messages.{emit_message_lem, on_message_lem}
use otmc_broker.Proxy.{
  Event, opened, said, closed, changed, lost, delivered, elapsed, beat, interrupted, Process,
  running, exited, crashed, after, on_lost, time_out, on_timeout, ping_all, end_all, handle, step,
  run,
}
use otmc_broker.Proxy.Admission.{
  on_connection_lem, unauthorized, unknown_backend, missing_topic, accepted,
}
use otmc_broker.Proxy.Counted.{
  IsCounted, IsBounded, IsMade, IsBridged, drop_entry-IsCounted, clean_up-IsCounted,
  add_bridge-IsCounted, on_close-IsCounted,
}

-- What holds of the state and the MQTT client that are returned.
abbrev pub IsGot : Text → Option ℕ × State → Type 0
IsGot id (none, s) = IsCounted s
IsGot id (some client, s) = IsCounted s × (get_elem? s.clients client ≡ some id)

new_client-IsCounted :
    (id : Text) (s : State) (calls : List Call)
    → IsCounted s
    → IsCounted (record s {
      pools = Map.set s.pools id (record { client = length s.clients; ref_count = 0 });
      clients = s.clients ++ id ∷ [];
      calls = calls;
    })
new_client-IsCounted id s calls v = record {
  bounded =
      set-AllEntries (IsBounded s) _ s.pools id
        (record { client = length s.clients; ref_count = 0 }) (omega arith) (λ j e miss b. b)
        v.bounded;
  made =
      set-AllEntries (IsMade s) _ s.pools id (record { client = length s.clients; ref_count = 0 })
        (get_elem?-length s.clients id) (λ j e miss m. get_elem?-append s.clients _ e.client j m)
        v.made;
  bridged =
      All_map (IsBridged s) _ s.bridges
        (λ bridge b. get_elem?-append s.clients _ bridge.client bridge.backend_id b) v.bridged;
}

module _ (suffixes : Suffixes) (mqtt_connect : Found Backend → Result (Unit {0})) where
  create_client-IsCounted :
      (id : Text) (config : Found Backend) (s : State)
      → IsCounted s
      → Holds (IsGot id) (create_client suffixes mqtt_connect id config s)
  unfolding create_client
  create_client-IsCounted id missing s v = v
  create_client-IsCounted id inherited s v = elim (Result-cases (mqtt_connect inherited)) [
    | inl (t, made) ↦ rw made (new_client-IsCounted id s _ v, get_elem?-length s.clients id)
    | inr (e, thrown) ↦ rw thrown tt
  ]
  create_client-IsCounted id (found b) s v = elim (Result-cases (mqtt_connect (found b))) [
    | inl (t, made) ↦ rw made (new_client-IsCounted id s _ v, get_elem?-length s.clients id)
    | inr (e, thrown) ↦ rw thrown tt
  ]

  pub get_backend_client-IsCounted :
      (id : Text) (s : State)
      → IsCounted s
      → Holds (IsGot id) (get_backend_client suffixes mqtt_connect id s)
  unfolding get_backend_client
  get_backend_client-IsCounted id s v = elim (Option-cases (Map.get s.pools id)) [
    | inl absent ↦ rw (absent, Holds) (create_client-IsCounted id (backend suffixes id) s v)
    | inr (entry, present) ↦ elim (Bool-cases (is_usable (s.links entry.client))) [
      | inl usable ↦ rw (present, usable, Holds) (v, v.made id entry present)
      | inr down ↦
          rw (present, down, Holds)
            (create_client-IsCounted id (backend suffixes id) (drop_entry id entry s)
              (drop_entry-IsCounted id entry s v))
    ]
  ]

frame :
    (s : State) (calls : List Call) (sockets : ℕ) (links : ℕ → Link) (timeouts : List Text)
    → IsCounted s
    → IsCounted (record s { calls = calls; sockets = sockets; links = links; timeouts = timeouts })
frame s calls sockets links timeouts v = record {
  bounded = v.bounded;
  made = v.made;
  bridged = v.bridged;
}

time_out-IsCounted :
    (timeouts : List Text) (s : State) → IsCounted s → IsCounted (time_out timeouts s)
time_out-IsCounted [] s v = v
time_out-IsCounted (id ∷ timeouts) s v = clean_up-IsCounted id _ (frame s _ _ _ timeouts v)

ping_all-IsCounted : (sockets : List ℕ) (s : State) → IsCounted s → IsCounted (ping_all sockets s)
unfolding ping_all
ping_all-IsCounted [] s v = v
ping_all-IsCounted (socket ∷ sockets) s v = ping_all-IsCounted sockets _ (frame s _ _ _ _ v)

end_all-IsCounted : (entries : List Entry) (s : State) → IsCounted s → IsCounted (end_all entries s)
unfolding end_all
end_all-IsCounted [] s v = v
end_all-IsCounted (entry ∷ entries) s v = end_all-IsCounted entries _ (frame s _ _ _ _ v)

pub start-IsCounted : IsCounted start
unfolding Map.get
start-IsCounted = record {
  bounded = λ k v e. absurd (cc e);
  made = λ k v e. absurd (cc e);
  bridged = tt;
}

abbrev pub Keeps : Process → Type 0
Keeps (running s) = IsCounted s
Keeps (exited s) = IsCounted s
Keeps crashed = Unit

module _ (library : Library) where
  open library use {suffixes, mqtt_connect}

  bridge_added :
      (socket : ℕ) (id topic : Text) (got : Option ℕ × State)
      → IsGot id got
      → IsCounted (add_bridge socket id topic got)
  unfolding add_bridge
  bridge_added socket id topic (none, s) v = frame s _ _ _ _ v
  bridge_added socket id topic (some client, s) v =
      add_bridge-IsCounted socket id topic client s v.0 v.1

  bridge_added_to :
      (socket : ℕ) (id topic : Text) (got : Result (Option ℕ × State))
      → Holds (IsGot id) got
      → Holds IsCounted (got >>= λ pair. ok (add_bridge socket id topic pair))
  bridge_added_to socket id topic (err thrown) v = tt
  bridge_added_to socket id topic (ok got) v = bridge_added socket id topic got v

  on_connection-IsCounted :
      (socket : ℕ) (query : Query) (s : State)
      → IsCounted s
      → Holds IsCounted (on_connection library socket query s)
  on_connection-IsCounted socket query s v = elim (on_connection_lem library socket query s) [
    | unauthorized wrong result ↦ rw result (frame s _ _ _ _ v)
    | unknown_backend right unknown result ↦ rw result (frame s _ _ _ _ v)
    | missing_topic id right known no_topic result ↦ rw result (frame s _ _ _ _ v)
    | accepted id topic accepts result ↦ rw result (
        bridge_added_to socket id topic (get_backend_client suffixes mqtt_connect id s)
          (get_backend_client-IsCounted suffixes mqtt_connect id s v))
  ]

  on_message-IsCounted :
      (bridge : Bridge) (raw : Text) (s : State)
      → IsCounted s
      → Holds IsCounted (on_message library bridge raw s)
  on_message-IsCounted bridge raw s v = elim (on_message_lem library bridge raw s) [
    | inl (topic, payload, wanted, e) ↦ rw e (frame s _ _ _ _ v)
    | inr (thrown, e, refused) ↦ rw e tt
  ]

  after_held : (result : Result State) → Holds IsCounted result → Keeps (after result)
  after_held (ok s) v = v
  after_held (err thrown) v = tt

  handle-IsCounted : (event : Event) (s : State) → IsCounted s → Keeps (handle library event s)
  unfolding handle on_timeout
  handle-IsCounted (opened query) s v =
      after_held _ (on_connection-IsCounted s.sockets query _ (frame s _ _ _ _ v))
  handle-IsCounted (said socket raw) s v = elim (Option-cases (bridge_of s.bridges socket)) [
    | inl absent ↦ rw (absent, handle) v
    | inr (bridge, e) ↦ rw (e, handle) (after_held _ (on_message-IsCounted bridge raw s v))
  ]
  handle-IsCounted (closed socket) s v = elim (Option-cases (bridge_of s.bridges socket)) [
    | inl absent ↦ rw (absent, handle) v
    | inr (bridge, e) ↦
        rw (e, handle) (on_close-IsCounted bridge s (bridge_of_own s.bridges socket bridge e) v)
  ]
  handle-IsCounted (changed client link) s v = frame s _ _ _ _ v
  handle-IsCounted (lost client) s v = elim (Option-cases (get_elem? s.clients client)) [
    | inl absent ↦ rw (absent, handle, on_lost) v
    | inr (id, e) ↦ rw (e, handle, on_lost) (frame s _ _ _ _ v)
  ]
  handle-IsCounted (delivered client topic payload is_open) s v =
      rw (handle, emit_message_lem is_open client topic payload s.bridges s) (frame s _ _ _ _ v)
  handle-IsCounted elapsed s v = time_out-IsCounted s.timeouts s v
  handle-IsCounted (beat sockets) s v = ping_all-IsCounted sockets s v
  handle-IsCounted interrupted s v = end_all-IsCounted (Map.values s.pools) s v

  pub step-IsCounted : (p : Process) (event : Event) → Keeps p → Keeps (step library p event)
  unfolding step
  step-IsCounted (running s) event v = handle-IsCounted event s v
  step-IsCounted (exited s) event v = v
  step-IsCounted crashed event v = tt

  run-Keeps : (p : Process) (events : List Event) → Keeps p → Keeps (run library p events)
  unfolding run
  run-Keeps p [] v = v
  run-Keeps p (event ∷ events) v =
      run-Keeps (step library p event) events (step-IsCounted p event v)

  -- Whatever happens from the start of the process on, in every state that is reached an entry of the
  -- pool counts at most the sockets with a bridge to its backend, and the MQTT client of an entry or of a
  -- bridge was created for its backend.
  pub run-IsCounted :
      (events : List Event) (s : State)
      → run library (running start) events ≡ running s
      → IsCounted s
  run-IsCounted events s e = subst Keeps e (run-Keeps (running start) events start-IsCounted)
