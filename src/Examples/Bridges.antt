-- ===== src/Examples/Bridges.antt =====
-- Browsers with bridges to the MQTT backends.
use otmc_broker.Prelude.{
  ℕ, suc, Text, codes, Bool, true, false, List, [], ◌∷◌, ◌++◌, Option, none, some, length, ◌≡◌, ◌≢◌,
  ◌⊎◌, refl, arith,
}
use otmc_broker.Map
use otmc_broker.Result.{ok}
use otmc_broker.Proxy.Backends.{Suffixes, Backend, backend}
use otmc_broker.Proxy.Data.{State, Link, connect, subscribe, send, end_client, start}
use otmc_broker.Proxy.Handlers.{
  Query, Library, to_browser, new_bridge, bridge_of, on_connection, emit_message,
}
use otmc_broker.Proxy.Admission.{Answer, Accepts, secret, on_connection_lem}
use otmc_broker.Proxy.Messages.{sends, emit_message_lem}
use otmc_broker.Proxy.Counted.{IsCounted}
use otmc_broker.Proxy.Invariant.{run-IsCounted}
use otmc_broker.Proxy.Shared.{is_subscribed, close_unsubscribes, replaced_client}
use otmc_broker.Proxy.Removal.{IsUnused, elapses, unused_is_removed}
use otmc_broker.Proxy.{
  Event, opened, closed, changed, lost, delivered, running, set_link, handle, run,
}

abbrev suffixes : Suffixes
suffixes = record { a = codes "1"; b = codes "2"; c = codes "3" }

abbrev library : Library
library = record {
  suffixes = suffixes;
  parse_json = λ t. none;
  mqtt_connect = λ config. ok tt;
  mqtt_publish = λ topic payload. ok tt;
}

abbrev id : Text
id = codes "backend-a"

abbrev news : Text
news = codes "news"

abbrev query : Query
query = record { token = some secret; backend = some id; topic = some news }

abbrev up : Link
up = record { connected = true; reconnecting = false }

-- Two browsers on one client, and a message for both.
abbrev shared_run : List Event
shared_run =
    opened query ∷ changed 0 up ∷ opened query ∷ delivered 0 news (codes "hi") (λ socket. true) ∷ []

abbrev shared : State
shared = record {
  pools = (id, record { client = 0; ref_count = 2 }) ∷ [];
  clients = id ∷ [];
  links = set_link start.links 0 up;
  sockets = 2;
  bridges = new_bridge 0 id news 0 ∷ new_bridge 1 id news 0 ∷ [];
  timeouts = [];
  calls =
      connect 0 (backend suffixes id)
      ∷ subscribe 0 news
      ∷ subscribe 0 news
      ∷ send 0 (to_browser id news (codes "hi"))
      ∷ send 1 (to_browser id news (codes "hi"))
      ∷ [];
}

shared_runs : run library (running start) shared_run ≡ running shared
unfolding run otmc_broker.Proxy.step otmc_broker.Proxy.Backends.is_valid_token
    otmc_broker.Prelude.text_eq backend Map.get Map.set otmc_broker.TextSet.has
shared_runs = refl

run-IsCounted_example : IsCounted shared
run-IsCounted_example = run-IsCounted library shared_run shared shared_runs

on_connection_lem_example : Answer library 0 query start (on_connection library 0 query start)
on_connection_lem_example = on_connection_lem library 0 query start

emit_message_lem_example :
    emit_message shared.bridges (λ socket. true) 0 news (codes "hi") shared ≡ record shared {
      calls = shared.calls ++ sends (λ socket. true) 0 news (codes "hi") shared.bridges;
    }
emit_message_lem_example =
    emit_message_lem (λ socket. true) 0 news (codes "hi") shared.bridges shared

close_unsubscribes_example :
    (s' : State) × (handle library (closed 0) shared ≡ running s')
    × (bridge_of s'.bridges 1 ≡ some (new_bridge 1 id news 0))
    × (is_subscribed 0 news false s'.calls ≡ false)
unfolding bridge_of
close_unsubscribes_example =
    close_unsubscribes library shared 0 1 (new_bridge 0 id news 0) (new_bridge 1 id news 0) refl
      refl (λ e. omega (arith, e)) refl refl

-- The second browser comes before the client is connected.
abbrev early : State
early = record shared { links = start.links }

accepts : Accepts suffixes query id news
unfolding backend Map.get otmc_broker.Prelude.text_eq
accepts = record {
  token = refl;
  backend = record { named = refl; present = refl };
  topic_given = refl;
}

replaced_client_example :
    (s' : State) × (handle library (opened query) early ≡ running s')
    × (Map.get s'.pools id ≡ some (record { client = 1; ref_count = 1 }))
    × (s'.bridges ≡ early.bridges ++ new_bridge 2 id news 1 ∷ [])
    × (s'.calls
        ≡ early.calls ++ end_client 0 ∷ connect 1 (backend suffixes id) ∷ subscribe 1 news ∷ [])
unfolding Map.get otmc_broker.Prelude.text_eq
replaced_client_example =
    replaced_client library early query id news (record { client = 0; ref_count = 2 }) accepts refl
      refl refl

abbrev unused_state : State
unused_state = record early {
  pools = (id, record { client = 0; ref_count = 0 }) ∷ [];
  bridges = [];
  timeouts = codes "backend-b" ∷ [];
}

is_unused : IsUnused unused_state id (record { client = 0; ref_count = 0 })
unfolding Map.get otmc_broker.Prelude.text_eq
is_unused = record { present = refl; uncounted = refl; down = refl }

unused_is_removed_example :
    (s' : State) × (run library (running unused_state) (lost 0 ∷ elapses 2) ≡ running s')
    × (Map.get s'.pools id ≡ none)
unused_is_removed_example =
    unused_is_removed library unused_state 0 id (record { client = 0; ref_count = 0 }) refl
      is_unused
