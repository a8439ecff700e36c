-- ===== src/Server/Invariant.antt =====
-- The maps of a process stay well formed, whatever the connections send and however they end.
use otmc_broker.Prelude.{List}
use otmc_broker.Map.Keys.{IsDistinct, set-IsDistinct, delete-IsDistinct}
use otmc_broker.Runtime.{Runtime}
use otmc_broker.Certificate.{Config}
use otmc_broker.Collect.{add_client, add_challenge, remove_client, remove_challenge}
use otmc_broker.Acl.{add_acl, remove_acl}
use otmc_broker.Topics.Members
use otmc_broker.Topics.Members.{add_subscription-IsValid, remove_client-IsValid}
use otmc_broker.World.{World, start, client_id}
use otmc_broker.Session.Keeps.{Laws, Occasion}
use otmc_broker.Server.Keeps.{world, Heard, run_kept}
use otmc_broker.Server.{Event, running, run}

-- Distinct keys in each map, and no filter with an empty set of clients.
pub record IsValid (w : World) : Type 0 where
  pub clients : IsDistinct w.collect.clients
  pub challenges : IsDistinct w.collect.challenges
  pub acls : IsDistinct w.acls
  pub subscriptions : Members.IsValid w.subscriptions

pub start-IsValid : IsValid start
start-IsValid = record {
  clients = tt;
  challenges = tt;
  acls = tt;
  subscriptions = record { distinct = tt; no_empty_set = tt };
}

module _ (r : Runtime) (config : Config) where
  pub IsValid-Laws : (heard : Occasion) → Laws IsValid heard r config
  unfolding add_client add_challenge remove_client remove_challenge add_acl remove_acl
  IsValid-Laws heard = record {
    framed = λ w sessions output v. record {
      clients = v.clients;
      challenges = v.challenges;
      acls = v.acls;
      subscriptions = v.subscriptions;
    };
    connected = λ w socket id challenge v. record {
      clients = set-IsDistinct w.collect.clients id socket v.clients;
      challenges = set-IsDistinct w.collect.challenges id challenge v.challenges;
      acls = v.acls;
      subscriptions = v.subscriptions;
    };
    admitted = λ w socket clock properties acl h a v. record {
      clients = v.clients;
      challenges = v.challenges;
      acls = set-IsDistinct w.acls (client_id w socket) acl v.acls;
      subscriptions = v.subscriptions;
    };
    subscribed = λ w socket acl topic e allowed v. record {
      clients = v.clients;
      challenges = v.challenges;
      acls = v.acls;
      subscriptions =
          add_subscription-IsValid w.subscriptions topic (client_id w socket) v.subscriptions;
    };
    forgotten = λ w id v. record {
      clients = delete-IsDistinct w.collect.clients id v.clients;
      challenges = delete-IsDistinct w.collect.challenges id v.challenges;
      acls = v.acls;
      subscriptions = v.subscriptions;
    };
    removed = λ w id v. record {
      clients = v.clients;
      challenges = v.challenges;
      acls = delete-IsDistinct w.acls id v.acls;
      subscriptions = remove_client-IsValid w.subscriptions id v.subscriptions;
    };
  }

  -- After any sequence of events from the start, running or crashed, each map of the process has one
  -- entry for each key, and no filter has an empty set of clients.
  pub run-IsValid : (events : List Event) → IsValid (world (run r config (running start) events))
  run-IsValid events =
      run_kept IsValid r config events (IsValid-Laws (Heard r config events)) start-IsValid
