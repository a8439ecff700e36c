-- ===== src/World.antt =====
-- The state of a broker process: the maps of client_collect.mjs, client_topics.mjs and client_acl.mjs,
-- and for each socket what the session on it holds. A handler is an action that may throw; what it did
-- before stays done.
use otmc_broker.Prelude.{ℕ, Text, Bool, false, List, [], ◌∷◌, ◌++◌, ◌==◌, if◌then◌else◌}
use otmc_broker.Result.{Error, Result, ok, err}
use otmc_broker.Collect.{Collector}
use otmc_broker.Topics.{Subscriptions}
use otmc_broker.Acl.{AclMap}
use otmc_broker.Packet.{Reply}

-- `socket.clientId`, which is empty while it is undefined (no client id is empty), and whether
-- `internal.acl` is defined.
pub record Session : Type 0 where
  pub client_id : Text
  pub has_acl : Bool

pub data Output : Type 0 where
  write : ℕ → Reply → Output
  close : ℕ → Output

-- Sockets and their sessions are numbered. The newest output is last.
pub record World : Type 0 where
  pub collect : Collector ℕ
  pub subscriptions : Subscriptions
  pub acls : AclMap
  pub sessions : ℕ → Session
  pub output : List Output

abbrev pub start : World
start = record {
  collect = record { clients = []; challenges = [] };
  subscriptions = [];
  acls = [];
  sessions = λ s. record { client_id = []; has_acl = false };
  output = [];
}

abbrev pub Exec {ℓ} : Type ℓ → Type ℓ
Exec A = World → Result A × World

module _ {ℓ} {A : Type ℓ} where
  abbrev pub pure : A → Exec A
  pure a w = (ok a, w)

  abbrev pub raise : Error → Exec A
  raise e w = (err e, w)

  abbrev pub lift : Result A → Exec A
  lift r w = (r, w)

module _ {ℓ κ} {A : Type ℓ} {B : Type κ} where
  abbrev pub continue : Result A → (A → Exec B) → Exec B
  continue (ok a) f w = f a w
  continue (err e) f w = (err e, w)

  infixl 10 ◌>>=◌
  abbrev pub ◌>>=◌ : Exec A → (A → Exec B) → Exec B
  ◌>>=◌ m f w = let (r, w') = m w in continue r f w'

infixl 10 ◌>>◌
abbrev pub ◌>>◌ {ℓ} : {B : Type ℓ} → Exec (Unit {0}) → Exec B → Exec B
m >> n = m >>= λ _. n

abbrev pub modify : (World → World) → Exec (Unit {0})
modify f w = (ok tt, f w)

abbrev pub gets {ℓ} : {A : Type ℓ} → (World → A) → Exec A
gets f w = (ok (f w), w)

abbrev pub update : (ℕ → Session) → ℕ → Session → ℕ → Session
update sessions s session j = if s == j then session else sessions j

-- `socket.write` of a generated packet, and `socket.end`.
abbrev pub write_to : ℕ → Reply → Exec (Unit {0})
write_to s reply = modify λ w. record w { output = w.output ++ write s reply ∷ [] }

abbrev pub end_socket : ℕ → Exec (Unit {0})
end_socket s = modify λ w. record w { output = w.output ++ close s ∷ [] }

abbrev pub client_id : World → ℕ → Text
client_id w s = (w.sessions s).client_id

abbrev pub has_acl : World → ℕ → Bool
has_acl w s = (w.sessions s).has_acl
