-- ===== src/Proxy/Asked.antt =====
-- What ProxyWSS/index.mjs sends to a socket, subscribes to and publishes is asked for by a connection
-- that it accepts.
pub mod Handlers
pub mod Run
use otmc_broker.Prelude.{
  ℕ, suc, ◌+◌, Text, text_eq, text_eq_iff, Bool, Bool-cases, true, not, List, [], ◌∷◌, ◌++◌, Option,
  Option-cases, none, some, inl, inr, ◌≡◌, ◌∙◌, refl, sym, ap, subst, arith, get_elem?, length,
  length-append, get_elem?-append, get_elem?-length, All, All-append, All_map, append_assoc,
  List-cases,
}
use otmc_broker.Map
use otmc_broker.TextSet
use otmc_broker.Result.{Result, ok, err, Result-cases, ◌>>=◌}
use otmc_broker.PlainObject.{Found, missing, inherited, found}
use otmc_broker.Proxy.Backends.{Suffixes, Backend, backend}
use otmc_broker.Proxy.Data.{
  State, Bridge, Call, close, send, ping, connect, end_client, subscribe, unsubscribe, publish,
  start,
}
use otmc_broker.Proxy.Pool.{is_usable, drop_entry, create_client, get_backend_client}
use otmc_broker.Proxy.Handlers.{Library, Query, to_browser}
use otmc_broker.Proxy.Admission.{Accepts}
use otmc_broker.Proxy.Messages.{IsWanted}
use otmc_broker.Proxy.{Event, opened, said}

-- The queries of the connections, in their order: the socket's number is the place.
unfoldable pub queries : List Event → List Query
queries [] = []
queries (opened query ∷ events) = query ∷ queries events
queries (event ∷ events) = queries events

pub queries-append :
    (events later : List Event) → queries (events ++ later) ≡ queries events ++ queries later
unfolding queries
queries-append [] later = refl
queries-append (opened query ∷ events) later = ap (λ qs. query ∷ qs) (queries-append events later)
queries-append (event ∷ events) later = queries-append events later

module _ (library : Library) (events : List Event) where
  -- The socket's connection is accepted with the backend and the topic.
  pub record Allowed (socket : ℕ) (id topic : Text) : Type 0 where
    pub query : Query
    pub made : get_elem? (queries events) socket ≡ some query
    pub accepts : Accepts library.suffixes query id topic

  -- The socket has sent the text.
  abbrev pub Said : ℕ → Text → Type 0
  Said socket raw = (n : ℕ) × (get_elem? events n ≡ some (said socket raw))

  -- An MQTT client is for the backend that stands in its place of the list.
  abbrev pub IsAsked : List Text → Call → Type 0
  IsAsked clients (send socket message) =
      (id : Text) × (topic : Text) × (payload : Text) × Allowed socket id topic
      × (message ≡ to_browser id topic payload)
  IsAsked clients (subscribe client topic) =
      (socket : ℕ) × (id : Text) × Allowed socket id topic × (get_elem? clients client ≡ some id)
  IsAsked clients (publish client topic payload) =
      (socket : ℕ) × (id : Text) × (own : Text) × (raw : Text) × Allowed socket id own
      × (get_elem? clients client ≡ some id)
      × Said socket raw
      × IsWanted library own raw topic payload
  IsAsked clients call = Unit

  pub record IsAskedBridge (bridge : Bridge) : Type 0 where
    pub allowed : Allowed bridge.socket bridge.backend_id bridge.topic
    pub own_topic : bridge.subscriptions ≡ bridge.topic ∷ []

  pub record AllAsked (s : State) : Type 0 where
    pub numbered : s.sockets ≡ length (queries events)
    pub bridges : All IsAskedBridge s.bridges
    pub calls : All (IsAsked s.clients) s.calls
