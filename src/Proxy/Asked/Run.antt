-- ===== src/Proxy/Asked/Run.antt =====
-- Every call that ProxyWSS/index.mjs makes for a socket is asked for, whatever happens.
use otmc_broker.Prelude.{List, All}
use otmc_broker.Map
use otmc_broker.Result.{Result}
use otmc_broker.Proxy.Handlers.{Library}
use otmc_broker.Proxy.Invariant
use otmc_broker.Proxy.Asked.{IsAsked, AllAsked}
use otmc_broker.Proxy.{Event, Process, running, exited, crashed}

module _ (library : Library) where
  open library use {suffixes}

  abbrev Keeps : List Event → Process → Type 0
  Keeps events (running s) = AllAsked library events s
  Keeps events (exited s) = All (IsAsked library events s.clients) s.calls
  Keeps events crashed = Unit
