-- ===== src/Proxy.antt =====
-- ProxyWSS/index.mjs: a bridge between WebSockets and MQTT backends. The libraries ws and mqtt, and
-- `JSON`, are the parameter `Library`.
pub mod Backends
pub mod Data
pub mod Pool
pub mod Handlers
pub mod Bridges
pub mod Admission
pub mod Messages
pub mod Asked
pub mod Shared
pub mod Removal
pub mod Counted
pub mod Invariant
use otmc_broker.Prelude.{
  ℕ, suc, Text, Bool, List, [], ◌∷◌, ◌++◌, Option, none, some, get_elem?, map, ◌==◌, if◌then◌else◌,
}
use otmc_broker.Map
use otmc_broker.Result.{Result, ok, err}
use otmc_broker.Proxy.Data.{State, Entry, Link, Bridge, ping, end_client, called}
use otmc_broker.Proxy.Pool.{clean_up}
use otmc_broker.Proxy.Handlers.{
  Query, Library, bridge_of, on_connection, on_message, emit_message, on_close,
}

pub data Event : Type 0 where
  -- A connection, and a message of a socket.
  opened : Query → Event
  said : ℕ → Text → Event
  closed : ℕ → Event
  -- The flags of an MQTT client change, or it emits `close` or `message`; the sockets that are open.
  changed : ℕ → Link → Event
  lost : ℕ → Event
  delivered : ℕ → Text → Text → (ℕ → Bool) → Event
  -- The oldest timeout, the interval, SIGINT.
  elapsed : Event
  beat : List ℕ → Event
  interrupted : Event

-- An exception that a listener throws ends the process.
pub data Process : Type 0 where
  running exited : State → Process
  crashed : Process

abbrev pub after : Result State → Process
after (ok s) = running s
after (err thrown) = crashed

-- `setTimeout` in the listener of an MQTT client's `close`.
unfoldable pub on_lost : ℕ → State → State
on_lost client s = elim (get_elem? s.clients client) [
  | none ↦ s
  | some id ↦ record s { timeouts = s.timeouts ++ id ∷ [] }
]

-- The oldest timeout is due.
abbrev pub time_out : List Text → State → State
time_out [] s = s
time_out (id ∷ timeouts) s = clean_up id (record s { timeouts = timeouts })

unfoldable pub on_timeout : State → State
on_timeout s = time_out s.timeouts s

unfoldable pub ping_all : List ℕ → State → State
ping_all [] s = s
ping_all (socket ∷ sockets) s = ping_all sockets (called (ping socket) s)

unfoldable pub end_all : List Entry → State → State
end_all [] s = s
end_all (entry ∷ entries) s = end_all entries (called (end_client entry.client) s)

abbrev pub set_link : (ℕ → Link) → ℕ → Link → ℕ → Link
set_link links client link j = if client == j then link else links j

module _ (library : Library) where
  abbrev pub with_bridge : Option Bridge → (Bridge → Result State) → State → Process
  with_bridge none handler s = running s
  with_bridge (some bridge) handler s = after (handler bridge)

  unfoldable pub handle : Event → State → Process
  unfolding on_connection on_message emit_message on_close on_lost on_timeout ping_all end_all
  handle (opened query) s =
      after (on_connection library s.sockets query (record s { sockets = suc s.sockets }))
  handle (said socket raw) s =
      with_bridge (bridge_of s.bridges socket) (λ bridge. on_message library bridge raw s) s
  handle (closed socket) s =
      with_bridge (bridge_of s.bridges socket) (λ bridge. ok (on_close bridge s)) s
  handle (changed client link) s = running (record s { links = set_link s.links client link })
  handle (lost client) s = running (on_lost client s)
  handle (delivered client topic payload is_open) s =
      running (emit_message s.bridges is_open client topic payload s)
  handle elapsed s = running (on_timeout s)
  handle (beat sockets) s = running (ping_all sockets s)
  handle interrupted s = exited (end_all (Map.values s.pools) s)

  unfoldable pub step : Process → Event → Process
  unfolding handle
  step (running s) event = handle event s
  step (exited s) event = exited s
  step crashed event = crashed

  unfoldable pub run : Process → List Event → Process
  run p [] = p
  run p (event ∷ events) = run (step p event) events
