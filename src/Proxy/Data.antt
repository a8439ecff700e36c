-- ===== src/Proxy/Data.antt =====
-- The state of the bridge process: the pool of MQTT clients, the sockets with a bridge, the pending
-- timeouts, and what the process asked of the libraries.
use otmc_broker.Prelude.{ℕ, Text, Bool, false, List, [], ◌∷◌, ◌++◌}
use otmc_broker.Map.{Map}
use otmc_broker.TextSet.{TextSet}
use otmc_broker.Json.{Value}
use otmc_broker.PlainObject.{Found}
use otmc_broker.Proxy.Backends.{Backend}

-- An entry of `pools`. MQTT clients and sockets are numbered.
pub record Entry : Type 0 where
  pub client : ℕ
  pub ref_count : ℕ

-- What the handlers of a socket hold, from the end of the handler of `connection` to the end of the
-- handler of `close`.
pub record Bridge : Type 0 where
  pub socket : ℕ
  pub backend_id : Text
  pub topic : Text
  pub client : ℕ
  pub subscriptions : TextSet

-- The flags of an MQTT client.
pub record Link : Type 0 where
  pub connected : Bool
  pub reconnecting : Bool

pub data Call : Type 0 where
  close : ℕ → ℕ → Text → Call
  send : ℕ → Value → Call
  ping : ℕ → Call
  connect : ℕ → Found Backend → Call
  end_client : ℕ → Call
  subscribe : ℕ → Text → Call
  unsubscribe : ℕ → Text → Call
  publish : ℕ → Value → Value → Call

-- The newest bridge, MQTT client, timeout and call are the last. `clients` has the backend of each MQTT
-- client, `sockets` counts the connections, and `timeouts` has the backends whose cleanup is due.
pub record State : Type 0 where
  pub pools : Map Entry
  pub clients : List Text
  pub links : ℕ → Link
  pub sockets : ℕ
  pub bridges : List Bridge
  pub timeouts : List Text
  pub calls : List Call

abbrev pub start : State
start = record {
  pools = [];
  clients = [];
  links = λ client. record { connected = false; reconnecting = false };
  sockets = 0;
  bridges = [];
  timeouts = [];
  calls = [];
}

abbrev pub called : Call → State → State
called call s = record s { calls = s.calls ++ call ∷ [] }
