-- ===== src/Session/Auth/Honest.antt =====
-- An honest client is let in by `handleAuth`.
use otmc_broker.Prelude.{ℕ, Text, codes, true, false, List, ◌∷◌, Option, some, ◌≡◌, refl, All}
use otmc_broker.TextSet
use otmc_broker.TextSet.{TextSet}
use otmc_broker.Result.{ok}
use otmc_broker.Json.{Value, property, iterate}
use otmc_broker.Runtime.{Runtime}
use otmc_broker.Certificate.{Config}
use otmc_broker.Certificate.Signature.Complete.{ProveAll, verify_signature_complete}
use otmc_broker.Acl.{get_acl_config}
use otmc_broker.Packet.{AuthData, AuthProperties}
use otmc_broker.World.{World, client_id}
use otmc_broker.Session.Auth.{
  Clock, auth_text, is_missing, is_certchain, client_cert_of, accept, length_is_zero, check_chain,
  handle_auth,
}
use otmc_broker.Session.Auth.Grant.{checked, hashed}

module _ (r : Runtime) (config : Config) (w : World) (socket : ℕ) (clock : Clock) where
  open r use {Cert, parse_json}

  -- The properties of an `auth` packet with a chain that is valid, and with challenges each of which
  -- proves a key of the chain.
  pub record IsHonest (properties : AuthProperties) (hashes : List Text) : Type 0 where
    pub method : is_certchain properties.authentication_method ≡ true
    pub raw : AuthData
    pub sent : properties.authentication_data ≡ some raw
    pub not_missing : is_missing (some raw) ≡ false
    pub json : Value
    pub parsed : parse_json (auth_text raw) ≡ some json
    pub client_cert : Option Value
    pub has_chain : client_cert_of (some json) ≡ ok client_cert
    pub valid : (checked r config clock client_cert (client_id w socket)).1 ≡ true
    pub root : Cert
    pub chain : List Cert
    pub not_empty :
        (hashed r config clock client_cert (client_id w socket)).0.full_chain ≡ root ∷ chain
    pub challenges : Option Value
    pub has_challenges : property (some json) (codes "challenges") ≡ ok challenges
    pub list : List Value
    pub listed : iterate challenges ≡ ok list
    pub proves :
        ProveAll r w.collect
          (hashed r config clock client_cert (client_id w socket)).0
          clock.challenge_now
          0
          list
          hashes

  -- A client whose chain is valid and whose challenges each prove a key is admitted: `handleAuth` grants
  -- it the ACL of its chain's hashes and of a set of verified hashes that has all of these keys.
  pub honest_is_admitted :
      (properties : AuthProperties) (hashes : List Text) (h : IsHonest properties hashes)
      → (verified : TextSet) × (handle_auth r config socket clock (some properties) w
          ≡ accept socket
              (get_acl_config
                (hashed r config clock h.client_cert (client_id w socket)).1
                (some verified))
              w)
        × All (λ hash. TextSet.has verified hash ≡ true) hashes
  unfolding handle_auth check_chain length_is_zero
  honest_is_admitted properties hashes h =
      let (verified, verifies, all) =
        verify_signature_complete r w.collect
          (hashed r config clock h.client_cert (client_id w socket)).0 clock.challenge_now
          h.challenges h.root h.chain h.list hashes h.not_empty h.listed h.proves in
      (
        verified,
        rw
            (
              handle_auth, h.method, h.sent, h.not_missing, h.parsed, h.has_chain, check_chain,
              h.valid, h.has_challenges, verifies,
            )
            refl,
        all,
      )
