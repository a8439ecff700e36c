-- ===== src/Server.antt =====
-- Nodejs_Broker/index.mjs: the listeners of a socket. What a listener of `close` or `error` throws ends
-- the process.
mod Gone
pub mod Keeps
pub mod Invariant
pub mod Granted
pub mod Confined
pub mod Written
pub mod Crash
pub mod Cleanup
pub mod Leak
use otmc_broker.Prelude.{ℕ, Text, is_empty, Bool, List, [], ◌∷◌, if◌then◌else◌}
use otmc_broker.Result.{Result, ok, err}
use otmc_broker.Runtime.{Runtime}
use otmc_broker.Certificate.{Config}
use otmc_broker.World.{World, Exec, ◌>>=◌, ◌>>◌, pure, modify, gets, update, client_id}
use otmc_broker.Session.{Arrival, parse, delete}

-- The listeners of `close` and `error` do the same.
unfoldable pub on_gone : ℕ → Exec (Unit {0})
on_gone socket = do
  id ← gets λ w. client_id w socket
  if is_empty id then pure tt else do
    delete socket id
    modify λ w. record w {
      sessions = update w.sessions socket (record (w.sessions socket) { client_id = [] });
    }

pub data Event : Type 0 where
  received : ℕ → List Arrival → Event
  closed failed : ℕ → Event

pub data Process : Type 0 where
  running crashed : World → Process

abbrev pub after : Result (Unit {0}) × World → Process
after (ok tt, w) = running w
after (err e, w) = crashed w

module _ (r : Runtime) (config : Config) where
  unfoldable pub step : Process → Event → Process
  step (crashed w) event = crashed w
  step (running w) (received socket arrivals) = running (parse r config socket arrivals w)
  step (running w) (closed socket) = after (on_gone socket w)
  step (running w) (failed socket) = after (on_gone socket w)

  unfoldable pub run : Process → List Event → Process
  run p [] = p
  run p (event ∷ events) = run (step p event) events
