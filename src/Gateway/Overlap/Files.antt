-- ===== src/Gateway/Overlap/Files.antt =====
-- Overlapping runs of HAProxy_Gate/dynamic-backend/index.mjs take no file away.
use otmc_broker.Prelude.{
  ℕ, Text, Bool-cases, Option-cases, true, List, [], ◌∷◌, inl, inr, ◌≡◌, arith, get_elem?, split,
}
use otmc_broker.Map
use otmc_broker.Map.Keys.{has-set}
use otmc_broker.TextSet
use otmc_broker.Result.{Result, ok, err, Result-cases}
use otmc_broker.Effect.Kept.{IsKept}
use otmc_broker.Gateway.Nodes.{Peer, Redis, get_all_backends}
use otmc_broker.Gateway.Haproxy.{
  Haproxy, State, backend_file, generate_backend_config, reload_haproxy_config,
  execute_runtime_command, matches,
}
use otmc_broker.Gateway.Overlap.{
  Phase, reading, done, listing, reloading, relisting, send_command, add_next, resume, Runs,
  running, exited, Event, message, resumed, after, step, run, state,
}

module _ (haproxy : Haproxy) (path : Text) where
  abbrev pub HasFile : State → Type 0
  HasFile s = Map.has s.files path ≡ true

  send_command-IsKept : IsKept HasFile send_command
  unfolding send_command
  send_command-IsKept s h = h

  add_next-IsKept :
      (backends : List (Text × Peer)) (current : List Text)
      → IsKept HasFile (add_next haproxy backends current)
  unfolding add_next reload_haproxy_config
  add_next-IsKept [] current s h = h
  add_next-IsKept ((node_id, peer) ∷ backends) current s h =
      elim (Bool-cases (TextSet.has current node_id)) [
        | inl there ↦ rw (add_next, there) (add_next-IsKept backends current s h)
        | inr absent ↦
            elim (Result-cases
              (haproxy.write_file (backend_file node_id) (generate_backend_config node_id peer))) [
                | inr (thrown, e) ↦ rw (add_next, absent, e) h
                | inl (t, e) ↦
                    rw (add_next, absent, e)
                      (ground (
                        arith,
                        h,
                        has-set s.files (backend_file node_id)
                            (generate_backend_config node_id peer) path,
                      ))
              ]
      ]

  pub resume-IsKept : (redis : Redis) (phase : Phase) → IsKept HasFile (resume haproxy redis phase)
  unfolding resume send_command
  resume-IsKept redis reading s h = elim (Result-cases (get_all_backends redis)) [
    | inr (thrown, e) ↦ rw (resume, e) h
    | inl (backends, e) ↦ rw (resume, e) h
  ]
  resume-IsKept redis (listing n backends) s h =
      elim (Result-cases (execute_runtime_command (haproxy.reply n))) [
        | inr (thrown, e) ↦ rw (resume, e) h
        | inl (result, e) ↦
            rw (resume, e) (add_next-IsKept backends (matches (split b'\n' result)) s h)
      ]
  resume-IsKept redis (reloading backends current) s h = h
  resume-IsKept redis (relisting n backends current) s h =
      elim (Result-cases (execute_runtime_command (haproxy.reply n))) [
        | inr (thrown, e) ↦ rw (resume, e) h
        | inl (result, e) ↦ rw (resume, e) (add_next-IsKept backends current s h)
      ]
  resume-IsKept redis done s h = h

  after-HasFile :
      (runs : List Phase) (i : ℕ) (r : Result Phase × State)
      → HasFile r.1
      → HasFile (state (after runs i r))
  after-HasFile runs i (ok phase, s) h = h
  after-HasFile runs i (err thrown, s) h = h

  step-HasFile :
      (p : Runs) (event : Event) → HasFile (state p) → HasFile (state (step haproxy p event))
  unfolding step
  step-HasFile (exited s) event h = h
  step-HasFile (running runs s) message h = h
  step-HasFile (running runs s) (resumed i redis) h = elim (Option-cases (get_elem? runs i)) [
    | inl e ↦ rw (step, e) h
    | inr (phase, e) ↦
        rw (step, e)
          (after-HasFile runs i (resume haproxy redis phase s) (resume-IsKept redis phase s h))
  ]

  -- However the runs of main overlap, and whatever Redis and HAProxy answer: a path that has a file has
  -- one after any sequence of messages and resumed runs.
  pub overlap-HasFile :
      (p : Runs) (events : List Event) → HasFile (state p) → HasFile (state (run haproxy p events))
  unfolding run
  overlap-HasFile p [] h = h
  overlap-HasFile p (event ∷ events) h =
      overlap-HasFile (step haproxy p event) events (step-HasFile p event h)
