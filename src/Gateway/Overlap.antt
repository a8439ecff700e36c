-- ===== src/Gateway/Overlap.antt =====
-- HAProxy_Gate/dynamic-backend/index.mjs: runs of main that overlap. A message on the channel starts a
-- run while others wait, and a run goes from one `await` to the next before another does.
pub mod Files
pub mod Alone
pub mod Complete
use otmc_broker.Prelude.{
  ℕ, zero, suc, Text, List, [], ◌∷◌, ◌++◌, Option, none, some, get_elem?, split, if◌then◌else◌,
}
use otmc_broker.Map
use otmc_broker.TextSet
use otmc_broker.Result.{Result, ok, err}
use otmc_broker.Effect.{Effect, pure, lift, gets, modify, ◌>>=◌, ◌>>◌}
use otmc_broker.Gateway.Nodes.{Peer, Redis, get_all_backends}
use otmc_broker.Gateway.Haproxy.{
  Haproxy, State, execute_runtime_command, matches, backend_file, generate_backend_config,
  reload_haproxy_config,
}

-- Where a run waits: for Redis, for the list of backends with what Redis has answered, after a reload,
-- and for the list after it, with the rest of the loop and the first list. A number is that of the
-- command whose reply is awaited.
pub data Phase : Type 0 where
  reading done : Phase
  listing : ℕ → List (Text × Peer) → Phase
  reloading : List (Text × Peer) → List Text → Phase
  relisting : ℕ → List (Text × Peer) → List Text → Phase

-- `executeRuntimeCommand` up to its promise.
unfoldable pub send_command : Effect State ℕ
send_command = do
  n ← gets λ s. s.commands
  modify λ s. record s { commands = suc s.commands }
  pure n

module _ (haproxy : Haproxy) where
  open haproxy use {reply, write_file}

  -- The loop of `main`, up to the next `await`.
  unfoldable pub add_next : List (Text × Peer) → List Text → Effect State Phase
  unfolding backend_file generate_backend_config reload_haproxy_config
  add_next [] current = pure done
  add_next ((node_id, peer) ∷ backends) current =
      let rest = add_next backends current in
      if TextSet.has current node_id then rest else do
        lift (write_file (backend_file node_id) (generate_backend_config node_id peer))
        modify λ s. record s {
          files = Map.set s.files (backend_file node_id) (generate_backend_config node_id peer);
        }
        reload_haproxy_config haproxy
        pure (reloading backends current)

  -- A run goes on to its next `await`. What Redis answers matters where the run waits for it.
  unfoldable pub resume : Redis → Phase → Effect State Phase
  unfolding add_next send_command get_all_backends execute_runtime_command matches
  resume redis reading = do
    backends ← lift (get_all_backends redis)
    n ← send_command
    pure (listing n backends)
  resume redis (listing n backends) = do
    result ← lift (execute_runtime_command (reply n))
    add_next backends (matches (split b'\n' result))
  resume redis (reloading backends current) = do
    n ← send_command
    pure (relisting n backends current)
  resume redis (relisting n backends current) = do
    result ← lift (execute_runtime_command (reply n))
    add_next backends current
  resume redis done = pure done

-- The runs in the order of their starts. An error in one of them ends the process.
pub data Runs : Type 0 where
  running : List Phase → State → Runs
  exited : State → Runs

pub data Event : Type 0 where
  message : Event
  resumed : ℕ → Redis → Event

abbrev pub set_elem : List Phase → ℕ → Phase → List Phase
set_elem [] i phase = []
set_elem (p ∷ runs) zero phase = phase ∷ runs
set_elem (p ∷ runs) (suc i) phase = p ∷ set_elem runs i phase

abbrev pub after : List Phase → ℕ → Result Phase × State → Runs
after runs i (ok phase, s) = running (set_elem runs i phase) s
after runs i (err thrown, s) = exited s

unfoldable pub step : Haproxy → Runs → Event → Runs
unfolding resume
step haproxy (exited s) event = exited s
step haproxy (running runs s) message = running (runs ++ reading ∷ []) s
step haproxy (running runs s) (resumed i redis) = elim (get_elem? runs i) [
  | none ↦ running runs s
  | some phase ↦ after runs i (resume haproxy redis phase s)
]

unfoldable pub run : Haproxy → Runs → List Event → Runs
unfolding step
run haproxy p [] = p
run haproxy p (event ∷ events) = run haproxy (step haproxy p event) events

abbrev pub state : Runs → State
state (running runs s) = s
state (exited s) = s
