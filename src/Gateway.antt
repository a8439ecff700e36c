-- ===== src/Gateway.antt =====
-- HAProxy_Gate/dynamic-backend/index.mjs: the broker nodes in Redis become backends of HAProxy.
pub mod Nodes
pub mod Paths
pub mod Haproxy
pub mod Files
pub mod Sync
pub mod Listed
pub mod OnlyAdds
pub mod Overlap
use otmc_broker.Prelude.{Text, Bool, List, [], ◌∷◌, if◌then◌else◌}
use otmc_broker.Map.{Map}
use otmc_broker.TextSet
use otmc_broker.Result.{Result, ok, err}
use otmc_broker.Effect.{Effect, pure, lift, ◌>>=◌, ◌>>◌}
use otmc_broker.Gateway.Nodes.{Peer, Redis, get_all_backends}
use otmc_broker.Gateway.Haproxy.{State, list_current_backends, add_backend}

module _ (haproxy : Haproxy.Haproxy) where
  -- The loop over `Object.entries`.
  unfoldable pub add_missing : List (Text × Peer) → List Text → Effect State (Unit {0})
  unfolding add_backend
  add_missing [] current = pure tt
  add_missing ((node_id, peer) ∷ backends) current =
      let rest = add_missing backends current in
      if TextSet.has current node_id then rest else (add_backend haproxy node_id peer >> rest)

  module _ (redis : Redis) where
    -- What is in the `try`.
    unfoldable pub sync : Effect State (Unit {0})
    unfolding add_missing list_current_backends get_all_backends
    sync = do
      backends ← lift (get_all_backends redis)
      current ← list_current_backends haproxy
      add_missing backends current

pub data Process : Type 0 where
  running exited : State → Process

abbrev pub after : Result (Unit {0}) × State → Process
after (ok tt, s) = running s
after (err thrown, s) = exited s

-- `main`, which runs once at the start and once for each message of the channel. An error ends the
-- process.
unfoldable pub main : Haproxy.Haproxy → Redis → Process → Process
unfolding sync
main haproxy redis (running s) = after (sync haproxy redis s)
main haproxy redis (exited s) = exited s

-- The start, and the messages on the channel of updates, each with what Redis answers to the run of main
-- that it causes.
unfoldable pub run : Haproxy.Haproxy → Process → List Redis → Process
unfolding main
run haproxy p [] = p
run haproxy p (redis ∷ later) = run haproxy (main haproxy redis p) later

abbrev pub state : Process → State
state (running s) = s
state (exited s) = s
