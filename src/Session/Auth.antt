-- ===== src/Session/Auth.antt =====
-- `handleAuth` of Nodejs_Broker/client_session.mjs.
pub mod Grant
pub mod Rights
pub mod Honest
use otmc_broker.Prelude.{
  ℕ, Text, codes, text_eq, is_empty, Bool, true, false, not, Option, none, some, if◌then◌else◌,
}
use otmc_broker.TextSet.{TextSet}
use otmc_broker.Result.{Result, ok, err, type_error}
use otmc_broker.Result
use otmc_broker.Json.{Value, property, ◌or_else◌}
use otmc_broker.Runtime.{Runtime}
use otmc_broker.Certificate
use otmc_broker.Certificate.{Config, Certificate, is_valid, get_public_key_hash}
use otmc_broker.Certificate.Signature.{verify_signature}
use otmc_broker.Acl.{AclConfig, add_acl, get_acl_config}
use otmc_broker.Packet.{AuthData, AuthProperties, buffer, text, other, success, not_authorized}
use otmc_broker.World.{World, Exec, ◌>>=◌, ◌>>◌, pure, lift, gets, modify, update, client_id}
use otmc_broker.Session.Connect.{send_connack}

-- The readings of the clock in one call: in `verifyCertChain`, and in each round of `verifySignature`.
pub record Clock : Type 0 where
  pub chain_now : ℕ
  pub challenge_now : ℕ → ℕ

abbrev pub auth_text : AuthData → Text
auth_text (buffer t) = t
auth_text (text t) = t
auth_text (other t) = t

-- An empty text is falsy; an empty buffer is not.
abbrev pub is_missing : Option AuthData → Bool
is_missing none = true
is_missing (some (text t)) = is_empty t
is_missing (some d) = false

abbrev pub is_certchain : Option Text → Bool
is_certchain none = false
is_certchain (some method) = text_eq method (codes "certchain")

unfoldable pub client_cert_of : Option Value → Result (Option Value)
client_cert_of json = Result.◌>>=◌ (property json (codes "cert")) λ cert.
    Result.◌>>=◌ (property json (codes "certificate")) λ certificate.
      Result.◌>>=◌ (property json (codes "chain")) λ chain.
        Result.◌>>=◌ (property json (codes "certChain"))
          λ cert_chain. ok (cert or_else certificate or_else chain or_else cert_chain)

-- `challengeHash.length === 0`: neither a `Set` nor `false` has a `length`, and `undefined === 0` does
-- not hold.
unfoldable pub length_is_zero : Option TextSet → Bool
length_is_zero challenge_hash = false

unfoldable pub reject : ℕ → Exec (Unit {0})
unfolding send_connack
reject socket = send_connack socket not_authorized none true

-- `this.acl = new ClientAcl()`, `addAcl` and the CONNACK.
unfoldable pub accept : ℕ → AclConfig → Exec (Unit {0})
unfolding add_acl send_connack
accept socket acl = do
  modify λ w. record w {
    sessions = update w.sessions socket (record (w.sessions socket) { has_acl = true });
  }
  modify λ w. record w { acls = add_acl w.acls (client_id w socket) acl }
  send_connack socket success (some acl) false

module _ (r : Runtime) (config : Config) where
  open r use {parse_json}

  -- From `isValid` on.
  unfoldable pub check_chain : ℕ → Clock → Option Value → Certificate r → Exec (Unit {0})
  unfolding reject
  check_chain socket clock json cert =
      let (checked, valid) = is_valid r config clock.chain_now cert in
      if not valid
      then reject socket
      else let (hashed, pub_key_hash) = get_public_key_hash r checked in
        do
          challenges ← lift (property json (codes "challenges"))
          collect ← gets λ w. w.collect
          challenge_hash ← lift (verify_signature r collect hashed clock.challenge_now challenges)
          if length_is_zero challenge_hash
              then reject socket
              else accept socket (get_acl_config pub_key_hash challenge_hash)

  unfoldable pub handle_auth : ℕ → Clock → Option AuthProperties → Exec (Unit {0})
  unfolding reject
  handle_auth socket clock none = reject socket
  handle_auth socket clock (some properties) =
      if not (is_certchain properties.authentication_method)
      then reject socket
      else elim properties.authentication_data [
        | none ↦ reject socket
        | some raw_auth_data ↦
            if is_missing (some raw_auth_data)
            then reject socket
            else elim (parse_json (auth_text raw_auth_data)) [
              | none ↦ reject socket
              | some json ↦ do
                client_cert ← lift (client_cert_of (some json))
                id ← gets λ w. client_id w socket
                check_chain socket clock (some json) (Certificate.init r client_cert id)
            ]
      ]
