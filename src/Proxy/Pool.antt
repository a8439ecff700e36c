-- ===== src/Proxy/Pool.antt =====
-- The pool of ProxyWSS/index.mjs: one MQTT client for each backend, with a count of the sockets on it.
use otmc_broker.Prelude.{
  ℕ, suc, ◌-◌, Text, Bool, not, ◌&&◌, ◌||◌, [], ◌∷◌, ◌++◌, Option, none, some, length, ◌==◌,
  if◌then◌else◌,
}
use otmc_broker.Map
use otmc_broker.Map.{Map}
use otmc_broker.Result.{Result, ok, ◌>>=◌}
use otmc_broker.PlainObject.{Found, missing}
use otmc_broker.Proxy.Backends.{Suffixes, Backend, backend}
use otmc_broker.Proxy.Data.{State, Entry, Link, connect, end_client, called}

-- A client that may still carry messages.
abbrev pub is_usable : Link → Bool
is_usable link = link.connected || link.reconnecting

-- `entry.client.end(true)` and `pools.delete`.
unfoldable pub drop_entry : Text → Entry → State → State
drop_entry id entry s = record (called (end_client entry.client) s) {
  pools = Map.delete s.pools id;
}

-- The new client, its entry, and the call.
abbrev pub created : Text → Found Backend → State → State
created id config s =
    let client = length s.clients in
    record s {
      pools = Map.set s.pools id (record { client = client; ref_count = 0 });
      clients = s.clients ++ id ∷ [];
      calls = s.calls ++ connect client config ∷ [];
    }

module _ (suffixes : Suffixes) (mqtt_connect : Found Backend → Result (Unit {0})) where
  -- `mqtt.connect` for a backend, whose `url` and `options` are undefined if it is an inherited member,
  -- and the new entry.
  unfoldable pub create_client : Text → Found Backend → State → Result (Option ℕ × State)
  create_client id missing s = ok (none, s)
  create_client id config s = do
    made ← mqtt_connect config
    ok (some (length s.clients), created id config s)

  unfoldable pub get_backend_client : Text → State → Result (Option ℕ × State)
  unfolding create_client drop_entry
  get_backend_client id s = elim (Map.get s.pools id) [
    | none ↦ create_client id (backend suffixes id) s
    | some entry ↦
        if is_usable (s.links entry.client)
        then ok (some entry.client, s)
        else create_client id (backend suffixes id) (drop_entry id entry s)
  ]

-- The timeout of a client's `close`.
unfoldable pub clean_up : Text → State → State
unfolding drop_entry
clean_up id s = elim (Map.get s.pools id) [
  | none ↦ s
  | some entry ↦
      if not (s.links entry.client).connected && entry.ref_count == 0
      then drop_entry id entry s
      else s
]

-- A new count for an entry that is there.
abbrev pub recount : (ℕ → ℕ) → Option Entry → Text → Map Entry → Map Entry
recount f none id pools = pools
recount f (some entry) id pools = Map.set pools id (record entry { ref_count = f entry.ref_count })

-- `Math.max(0, entry.refCount - 1)`: subtraction stops at 0.
unfoldable pub release_backend_client : Text → State → State
release_backend_client id s = record s {
  pools = recount (λ n. n - 1) (Map.get s.pools id) id s.pools;
}

-- `if (entry) entry.refCount++`.
unfoldable pub count_socket : Text → State → State
count_socket id s = record s { pools = recount suc (Map.get s.pools id) id s.pools }
