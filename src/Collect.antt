-- ===== src/Collect.antt =====
-- `ClientCollector` of Nodejs_Broker/client_collect.mjs: the module's two maps, one pair for the whole
-- process. A client is the session that answers on its socket.
use otmc_broker.Prelude.{ℕ, Text, text_eq, Bool, false, List, [], Option, none, some}
use otmc_broker.Map
use otmc_broker.Map.{Map}

pub record Collector (Client : Type 0) : Type 0 where
  pub clients : Map Client
  pub challenges : Map Text

module _ {Client : Type 0} where
  unfoldable pub add_client : Collector Client → Text → Client → Collector Client
  add_client c client_id client = record c { clients = Map.set c.clients client_id client }

  unfoldable pub remove_client : Collector Client → Text → Collector Client
  remove_client c client_id = record c { clients = Map.delete c.clients client_id }

  unfoldable pub get_client : Collector Client → Text → Option Client
  get_client c client_id = Map.get c.clients client_id

  unfoldable pub get_all_clients : Collector Client → List Client
  get_all_clients c = Map.values c.clients

  unfoldable pub add_challenge : Collector Client → Text → Text → Collector Client
  add_challenge c client_id challenge = record c {
    challenges = Map.set c.challenges client_id challenge;
  }

  unfoldable pub get_challenge : Collector Client → Text → Option Text
  get_challenge c client_id = Map.get c.challenges client_id

  unfoldable pub remove_challenge : Collector Client → Text → Collector Client
  remove_challenge c client_id = record c { challenges = Map.delete c.challenges client_id }

  unfoldable pub get_all_challenges : Collector Client → List (Text × Text)
  get_all_challenges c = c.challenges

  unfoldable pub clear : Collector Client → Collector Client
  clear c = record { clients = []; challenges = [] }

  unfoldable pub has_client : Collector Client → Text → Bool
  has_client c client_id = Map.has c.clients client_id

  -- The truth value of `pendingChallenge && pendingChallenge === challenge`: an empty pending
  -- challenge is falsy.
  unfoldable pub has_challenge : Collector Client → Text → Option Text → Bool
  has_challenge c client_id challenge = elim (Map.get c.challenges client_id) [
    | none ↦ false
    | some [] ↦ false
    | some pending ↦ elim challenge [ none ↦ false | some answer ↦ text_eq pending answer ]
  ]

  unfoldable pub get_client_count : Collector Client → ℕ
  get_client_count c = Map.size c.clients
