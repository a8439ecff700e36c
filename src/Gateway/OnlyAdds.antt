-- ===== src/Gateway/OnlyAdds.antt =====
-- HAProxy_Gate/dynamic-backend/index.mjs never takes a backend away.
use otmc_broker.Prelude.{suc, Text, Bool-cases, true, List, [], ◌∷◌, inl, inr, ◌≡◌, arith}
use otmc_broker.Map
use otmc_broker.Map.Keys.{has-set}
use otmc_broker.TextSet
use otmc_broker.Result.{Result, ok, err, Result-cases}
use otmc_broker.Effect.Kept.{IsKept, >>=-IsKept}
use otmc_broker.Gateway.Nodes.{Peer, Redis, get_all_backends}
use otmc_broker.Gateway.Haproxy.{
  Haproxy, State, backend_file, generate_backend_config, list_current_backends, add_backend,
  reload_haproxy_config, reloads_after, execute_runtime_command,
}
use otmc_broker.Gateway.{add_missing, sync, Process, running, exited, after, main, run, state}

module _ (haproxy : Haproxy) (path : Text) where
  abbrev HasFile : State → Type 0
  HasFile s = Map.has s.files path ≡ true

  list_current_backends-IsKept : IsKept HasFile (list_current_backends haproxy)
  unfolding list_current_backends
  list_current_backends-IsKept s h =
      elim (Result-cases (execute_runtime_command (haproxy.reply s.commands))) [
        | inl (answer, e) ↦ rw (list_current_backends, e) h
        | inr (thrown, e) ↦ rw (list_current_backends, e) h
      ]

  -- The state in which the answer of HAProxy is read after a file is written.
  abbrev reloaded : Text → Peer → State → State
  reloaded node_id peer s = record s {
    files = Map.set s.files (backend_file node_id) (generate_backend_config node_id peer);
    signals = suc s.signals;
    reloads = reloads_after (haproxy.signal s.signals) s.reloads;
  }

  reloaded-HasFile :
      (node_id : Text) (peer : Peer) (s : State) → HasFile s → HasFile (reloaded node_id peer s)
  reloaded-HasFile node_id peer s h =
      ground (
        arith,
        h,
        has-set s.files (backend_file node_id) (generate_backend_config node_id peer) path,
      )

  add_backend-IsKept :
      (node_id : Text) (peer : Peer) → IsKept HasFile (add_backend haproxy node_id peer)
  unfolding add_backend reload_haproxy_config
  add_backend-IsKept node_id peer s h =
      elim (Result-cases
        (haproxy.write_file (backend_file node_id) (generate_backend_config node_id peer))) [
          | inr (thrown, e) ↦ rw (add_backend, e) h
          | inl (t, e) ↦
              let kept =
                list_current_backends-IsKept (reloaded node_id peer s)
                  (reloaded-HasFile node_id peer s h) in
              elim (Result-cases (list_current_backends haproxy (reloaded node_id peer s)).0) [
                | inl (current, e') ↦ rw (add_backend, e, e') kept
                | inr (thrown, e') ↦ rw (add_backend, e, e') kept
              ]
        ]

  add_missing-IsKept :
      (backends : List (Text × Peer)) (current : List Text)
      → IsKept HasFile (add_missing haproxy backends current)
  unfolding add_missing
  add_missing-IsKept [] current s h = h
  add_missing-IsKept ((node_id, peer) ∷ backends) current s h =
      elim (Bool-cases (TextSet.has current node_id)) [
        | inl there ↦ rw (add_missing, there) (add_missing-IsKept backends current s h)
        | inr absent ↦
            rw (add_missing, absent)
              (>>=-IsKept HasFile (add_backend haproxy node_id peer) _
                (add_backend-IsKept node_id peer) (λ t. add_missing-IsKept backends current) s h)
      ]

  sync-IsKept : (redis : Redis) → IsKept HasFile (sync haproxy redis)
  unfolding sync
  sync-IsKept redis s h = elim (Result-cases (get_all_backends redis)) [
    | inr (thrown, e) ↦ rw (sync, e) h
    | inl (backends, e) ↦
        rw (sync, e)
          (>>=-IsKept HasFile (list_current_backends haproxy) (add_missing haproxy backends)
            list_current_backends-IsKept (add_missing-IsKept backends) s h)
  ]

  after-HasFile : (done : Result (Unit {0}) × State) → HasFile done.1 → HasFile (state (after done))
  after-HasFile (ok tt, s) h = h
  after-HasFile (err e, s) h = h

  main-HasFile :
      (redis : Redis) (p : Process) → HasFile (state p) → HasFile (state (main haproxy redis p))
  unfolding main
  main-HasFile redis (exited s) h = h
  main-HasFile redis (running s) h = after-HasFile (sync haproxy redis s) (sync-IsKept redis s h)

  -- Whatever Redis and HAProxy answer, and if runs fail or not: a path that has a file has one after any
  -- number of runs of main, so the backend of a node that is in Redis no more stays.
  pub run-HasFile :
      (p : Process) (later : List Redis) → HasFile (state p) → HasFile (state (run haproxy p later))
  unfolding run
  run-HasFile p [] h = h
  run-HasFile p (redis ∷ later) h =
      run-HasFile (main haproxy redis p) later (main-HasFile redis p h)
