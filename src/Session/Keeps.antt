-- ===== src/Session/Keeps.antt =====
-- A property of the process that each change of the maps keeps is kept by every packet, whether its
-- handler returns or throws.
pub mod Handlers
use otmc_broker.Prelude.{ℕ, Text, List, Option, some, Bool, true, false, ◌≡◌, if◌then◌else◌}
use otmc_broker.Result.{Result, ok, err}
use otmc_broker.Runtime.{Runtime}
use otmc_broker.Json.{Value}
use otmc_broker.Certificate.{Config}
use otmc_broker.Collect.{add_client, add_challenge, remove_client, remove_challenge}
use otmc_broker.Acl.{AclConfig, add_acl, get_acl, remove_acl}
use otmc_broker.Topics
use otmc_broker.Topics.{add_subscription}
use otmc_broker.Packet.{Reply, AuthProperties}
use otmc_broker.World.{
  World, Session, Output, Exec, client_id, has_acl, pure, gets, ◌>>=◌, continue,
}
use otmc_broker.Session.Access.{is_readable, may_access}
use otmc_broker.Session.Auth.{Clock}
use otmc_broker.Session.Auth.Grant.{Admission}

-- An `auth` packet with these properties is handled in this world, on this socket, by this clock.
abbrev pub Occasion : Type 1
Occasion = World → ℕ → Clock → AuthProperties → Type 0

module _ (I : World → Type 0) where
  -- The action keeps the property.
  pub record Keeps {ℓ} {A : Type ℓ} (m : Exec A) : Type ℓ where
    pub at : (w : World) → I w → I (m w).1

  -- Each change of the maps keeps the property, and the sessions and the output do not matter.
  pub record Laws (heard : Occasion) (r : Runtime) (config : Config) : Type 0 where
    pub framed :
        (w : World) (sessions : ℕ → Session) (output : List Output)
        → I w
        → I (record w { sessions = sessions; output = output })
    pub connected :
        (w : World) (socket : ℕ) (id challenge : Text)
        → I w
        → I (record w { collect = add_challenge (add_client w.collect id socket) id challenge })
    pub admitted :
        (w : World) (socket : ℕ) (clock : Clock) (properties : AuthProperties) (acl : AclConfig)
        → heard w socket clock properties
        → Admission r config w socket clock properties acl
        → I w
        → I (record w { acls = add_acl w.acls (client_id w socket) acl })
    pub subscribed :
        (w : World) (socket : ℕ) (acl : AclConfig) (topic : Text)
        → get_acl w.acls (client_id w socket) ≡ some acl
        → may_access is_readable acl topic ≡ true
        → I w
        → I (record w {
          subscriptions = add_subscription w.subscriptions topic (client_id w socket);
        })
    pub forgotten :
        (w : World) (id : Text)
        → I w
        → I (record w { collect = remove_challenge (remove_client w.collect id) id })
    pub removed :
        (w : World) (id : Text)
        → I w
        → I (record w {
          acls = remove_acl w.acls id;
          subscriptions = Topics.remove_client w.subscriptions id;
        })

  module _ {ℓ κ} {A : Type ℓ} {B : Type κ} where
    Keeps-continue :
        (f : A → Exec B) (res : Result A) (w : World)
        → ((a : A) → Keeps (f a))
        → I w
        → I (continue res f w).1
    Keeps-continue f (ok a) w k v = (k a).at w v
    Keeps-continue f (err e) w k v = v

    pub Keeps-bind :
        (m : Exec A) (f : A → Exec B) → Keeps m → ((a : A) → Keeps (f a)) → Keeps (m >>= f)
    Keeps-bind m f k l = record { at = λ w v. Keeps-continue f (m w).0 (m w).1 l (k.at w v) }

  module _ {ℓ} {A : Type ℓ} where
    pub pure-Keeps : (a : A) → Keeps (pure a)
    pure-Keeps a = record { at = λ w v. v }

    pub gets-Keeps : (f : World → A) → Keeps (gets f)
    gets-Keeps f = record { at = λ w v. v }

    pub if-Keeps : (b : Bool) {m n : Exec A} → Keeps m → Keeps n → Keeps (if b then m else n)
    if-Keeps true k l = k
    if-Keeps false k l = l
