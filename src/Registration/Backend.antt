-- ===== src/Registration/Backend.antt =====
-- From a broker's registration to its backend in HAProxy.
use otmc_broker.Prelude.{ℕ, Text, codes, false, [], ◌∷◌, some, ◌≡◌}
use otmc_broker.Map
use otmc_broker.TextSet
use otmc_broker.Result.{ok}
use otmc_broker.Json.{array, nil}
use otmc_broker.Runtime.{Runtime}
use otmc_broker.Gateway.Haproxy
use otmc_broker.Gateway.Haproxy.{Haproxy, backend_file, generate_backend_config}
use otmc_broker.Gateway.Files.{IsPlainId}
use otmc_broker.Gateway.Sync.{IsWorking, listed, missing_from, main-Adds}
use otmc_broker.Gateway
use otmc_broker.Gateway.{main}
use otmc_broker.Registration.{Broker, Registry, empty, reads, writes, announces, run}
use otmc_broker.Registration.Found.{IsReadable, peer_of, redis_of, registered_is_found}

module _ (r : Runtime) (brokers : ℕ → Broker) (n : ℕ) (count : Text) (haproxy : Haproxy) where
  abbrev broker : Broker
  broker = brokers n

  -- A broker registers in a Redis that was empty, and then the gateway runs once: if HAProxy does not
  -- list the broker's node, its file is there, with the broker's host and port. It is assumed that JSON
  -- reads back what the broker writes, that its node id has no slash, and that HAProxy answers and its
  -- files can be written.
  pub registered_has_backend :
      r.parse_json (codes "[]") ≡ some (array nil)
      → IsReadable r broker count
      → IsPlainId broker.node_id
      → (works : IsWorking haproxy) (s : Haproxy.State)
      → TextSet.has (listed haproxy works s.commands) broker.node_id ≡ false
      → (registry : Registry) × (s' : Haproxy.State) × (run r brokers empty
            (reads n ∷ writes n ∷ announces n count ∷ [])
          ≡ ok registry)
        × (main haproxy (redis_of r registry) (Gateway.running s) ≡ Gateway.running s')
        × (Map.get s'.files (backend_file broker.node_id)
            ≡ some (generate_backend_config broker.node_id (peer_of broker)))
  unfolding missing_from
  registered_has_backend no_endpoints back plain works s unlisted =
      let (registry, registered, found) = registered_is_found r no_endpoints brokers n count back in
      let (s', synced, adds) =
        main-Adds haproxy works (redis_of r registry) ((broker.node_id, peer_of broker) ∷ []) s
          found (plain, tt) in
      (registry, s', registered, synced, (rw unlisted at adds.written).0)
