-- ===== src/Server/Granted.antt =====
-- Every right in a process comes from a certificate chain: the ACLs that it holds, and the subscriptions.
use otmc_broker.Prelude.{
  ℕ, Text, text_eq, text_eq_iff, Bool-cases, List, Option, some, ◌≡◌, refl, subst, inl, inr, arith,
}
use mathlib.Core.Option.{some-injective}
use otmc_broker.Map
use otmc_broker.Json.{Value}
use otmc_broker.Runtime.{Runtime}
use otmc_broker.Certificate
use otmc_broker.Certificate.{Config}
use otmc_broker.Certificate.Chain.Valid.{IsTrusted, is_valid-IsTrusted}
use otmc_broker.Acl.{AclConfig, add_acl, get_acl, remove_acl}
use otmc_broker.Packet.{AuthProperties}
use otmc_broker.Result.{ok}
use otmc_broker.World.{World, start, client_id}
use otmc_broker.Session.Auth.{Clock, client_cert_of}
use otmc_broker.Session.Auth.Grant.{Admits, Admission, auth_json, checked}
use otmc_broker.Session.Keeps.{Laws}
use otmc_broker.Server.Keeps.{world, Heard, run_kept}
use otmc_broker.Server.{Event, running, run}

module _ (r : Runtime) (config : Config) (events : List Event) where
  -- The ACL was granted to the client `id` by a call of `handleAuth` in the run: for an `auth` packet
  -- that is among the events, on a socket whose client was `id` when the packet was handled.
  pub record Grant (id : Text) (acl : AclConfig) : Type 0 where
    pub before : World
    pub socket : ℕ
    pub clock : Clock
    pub properties : AuthProperties
    pub heard : Heard r config events before socket clock properties
    pub named : client_id before socket ≡ id
    pub json : Value
    pub parsed : auth_json r config (some properties) ≡ some json
    pub client_cert : Option Value
    pub has_cert : client_cert_of (some json) ≡ ok client_cert
    pub admits : Admits r config before clock (some json) client_cert id acl

  pub Grant-IsTrusted :
      (id : Text) (acl : AclConfig) (g : Grant id acl)
      → IsTrusted r config g.clock.chain_now g.client_cert
          (checked r config g.clock g.client_cert id).0.full_chain
  unfolding Certificate.init
  Grant-IsTrusted id acl g =
      is_valid-IsTrusted r config g.clock.chain_now (Certificate.init r g.client_cert id)
        g.admits.valid

  abbrev pub AllGranted : World → Type 0
  AllGranted w = (id : Text) (acl : AclConfig) → get_acl w.acls id ≡ some acl → Grant id acl

  grant :
      (w : World) (socket : ℕ) (clock : Clock) (properties : AuthProperties) (acl : AclConfig)
      → Heard r config events w socket clock properties
      → Admission r config w socket clock properties acl
      → AllGranted w
      → AllGranted (record w { acls = add_acl w.acls (client_id w socket) acl })
  unfolding get_acl add_acl
  grant w socket clock properties acl h a v j other e =
      elim (Bool-cases (text_eq (client_id w socket) j)) [
        | inl same ↦
            let granted : Grant (client_id w socket) acl = record {
              before = w;
              socket = socket;
              clock = clock;
              properties = properties;
              heard = h;
              named = refl;
              json = a.json;
              parsed = a.parsed;
              client_cert = a.client_cert;
              has_cert = a.has_cert;
              admits = a.admits;
            } in
            let same_acl : acl ≡ other =
              some-injective acl other
                (ground (arith, Map.get-set w.acls (client_id w socket) acl j)) in
            subst (Grant j) same_acl
              (subst (λ k. Grant k acl) ((text_eq_iff (client_id w socket) j).0 same) granted)
        | inr different ↦ v j other (ground (arith, Map.get-set w.acls (client_id w socket) acl j))
      ]

  pub start-AllGranted : AllGranted start
  unfolding get_acl Map.get
  start-AllGranted j other e = cc

  pub AllGranted-Laws : Laws AllGranted (Heard r config events) r config
  unfolding get_acl remove_acl
  AllGranted-Laws = record {
    framed = λ w sessions output v. v;
    connected = λ w socket id challenge v. v;
    admitted = grant;
    subscribed = λ w socket acl topic e allowed v. v;
    forgotten = λ w id v. v;
    removed = λ w id v j acl e. v j acl (ground (arith, Map.get-delete w.acls id j));
  }

  -- After any sequence of events from the start, running or crashed, each ACL that the process holds for
  -- a client was granted in this run: one of the events is a chunk with an `auth` packet on a socket that
  -- was that client's when the packet was handled, the ACL is that of `getAclConfig` for this packet, and
  -- the certificates in it made a trusted chain at the clock's reading in that call.
  pub run-Grant :
      (id : Text) (acl : AclConfig)
      → get_acl (world (run r config (running start) events)).acls id ≡ some acl
      → (g : Grant id acl) × IsTrusted r config g.clock.chain_now g.client_cert
          (checked r config g.clock g.client_cert id).0.full_chain
  run-Grant id acl e =
      let g = run_kept AllGranted r config events AllGranted-Laws start-AllGranted id acl e in
      (g, Grant-IsTrusted id acl g)
