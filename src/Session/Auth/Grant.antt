-- ===== src/Session/Auth/Grant.antt =====
-- What `handleAuth` does on every path, and what it takes to be let in.
use otmc_broker.Prelude.{
  ℕ, Text, codes, Bool, Bool-cases, true, false, List, [], ◌∷◌, ◌++◌, Option, Option-cases, none,
  some, ◌≡◌, ◌⊎◌, inl, inr, refl, arith, if◌then◌else◌,
}
use otmc_broker.TextSet.{TextSet}
use otmc_broker.Result.{Result, Result-cases, Error, ok, err}
use otmc_broker.Json.{Value, property}
use otmc_broker.Runtime.{Runtime}
use otmc_broker.Certificate
use otmc_broker.Certificate.{Config, Certificate, is_valid, get_public_key_hash}
use otmc_broker.Certificate.Signature.{verify_signature}
use otmc_broker.Acl.{AclConfig, get_acl_config}
use otmc_broker.Packet.{Reply, AuthData, AuthProperties, not_authorized}
use otmc_broker.World.{World, write, close, client_id}
use otmc_broker.Session.Auth.{
  Clock, auth_text, is_missing, is_certchain, client_cert_of, accept, length_is_zero, check_chain,
  handle_auth,
}

-- CONNACK with "not authorized", and the end of the connection; all else is as before.
abbrev pub after_reject : ℕ → World → World
after_reject socket w = record w {
  output = (w.output ++ write socket (Reply.connack not_authorized none) ∷ []) ++ close socket ∷ [];
}

module _ (r : Runtime) (config : Config) where
  open r use {Cert, parse_json, key_hash}

  -- The certificate object after `isValid`, with its result, and after `getPublicKeyHash`.
  abbrev pub checked : Clock → Option Value → Text → Certificate r × Bool
  checked clock client_cert id =
      is_valid r config clock.chain_now (Certificate.init r client_cert id)

  abbrev pub hashed : Clock → Option Value → Text → Certificate r × Option (List Text)
  hashed clock client_cert id = get_public_key_hash r (checked clock client_cert id).0

  -- The client is let in with an ACL: its chain is valid, and `verifySignature` returned.
  pub record Admits (w : World) (clock : Clock) (json client_cert : Option Value) (id : Text)
      (acl : AclConfig) : Type 0 where
    pub valid : (checked clock client_cert id).1 ≡ true
    pub challenges : Option Value
    pub has_challenges : property json (codes "challenges") ≡ ok challenges
    pub verified : Option TextSet
    pub verifies :
        verify_signature r w.collect (hashed clock client_cert id).0 clock.challenge_now challenges
        ≡ ok verified
    pub acl_is : acl ≡ get_acl_config (hashed clock client_cert id).1 verified

  -- What is thrown while the challenges are read and checked.
  abbrev pub ChecksThrow : World → Clock → Option Value → Option Value → Text → Error → Type 0
  ChecksThrow w clock json client_cert id e =
      (property json (codes "challenges") ≡ err e)
      ⊎ ((challenges : Option Value) × (property json (codes "challenges") ≡ ok challenges)
          × (verify_signature r w.collect (hashed clock client_cert id).0 clock.challenge_now
                challenges
              ≡ err e))

  -- How a call ends: a refusal if the chain is not valid, a throw of the checks that leaves all as it
  -- was, or an admission.
  pub data Ends (w : World) (socket : ℕ) (clock : Clock) (json client_cert : Option Value)
      (result : Result (Unit {0}) × World) : Type 0 where
    rejects :
        (checked clock client_cert (client_id w socket)).1 ≡ false
        → result ≡ (ok tt, after_reject socket w)
        → Ends w socket clock json client_cert result
    throws :
        (e : Error)
        → (checked clock client_cert (client_id w socket)).1 ≡ true
        → ChecksThrow w clock json client_cert (client_id w socket) e
        → result ≡ (err e, w)
        → Ends w socket clock json client_cert result
    admits :
        (acl : AclConfig)
        → Admits w clock json client_cert (client_id w socket) acl
        → result ≡ accept socket acl w
        → Ends w socket clock json client_cert result

  module _ (w : World) (socket : ℕ) (clock : Clock) (json client_cert : Option Value) where
    abbrev id : Text
    id = client_id w socket

    after_chain :
        (valid : (checked clock client_cert id).1 ≡ true)
        → (p : Result (Option Value)) → property json (codes "challenges") ≡ p
        → Ends w socket clock json client_cert
            (check_chain r config socket clock json (Certificate.init r client_cert id) w)
    after_chain valid (err e) h = throws e valid (inl h) (unfold check_chain in rw (valid, h))
    after_chain valid (ok challenges) h =
        elim (Result-cases (
          verify_signature r w.collect (hashed clock client_cert id).0 clock.challenge_now
            challenges)) [
              | inr (e, s) ↦
                  throws e valid (inr (challenges, h, s))
                    (unfold check_chain in rw (valid, h) (rw s))
              | inl (verified, s) ↦
                  admits (get_acl_config (hashed clock client_cert id).1 verified)
                    (record {
                      valid = valid;
                      challenges = challenges;
                      has_challenges = h;
                      verified = verified;
                      verifies = s;
                      acl_is = refl;
                    })
                    (unfold check_chain length_is_zero in rw (valid, h) (rw s))
            ]

    check_chain-Ends :
        Ends w socket clock json client_cert
          (check_chain r config socket clock json (Certificate.init r client_cert id) w)
    check_chain-Ends = elim (Bool-cases (checked clock client_cert id).1) [
      | inr invalid ↦ rejects invalid (unfold check_chain in rw invalid)
      | inl valid ↦ after_chain valid (property json (codes "challenges")) refl
    ]

  abbrev pub data_json : Option AuthData → Option Value
  data_json none = none
  data_json (some d) = if is_missing (some d) then none else parse_json (auth_text d)

  -- The JSON value of an `auth` packet, if its method is `certchain`, it has data, and the data parses.
  abbrev pub auth_json : Option AuthProperties → Option Value
  auth_json none = none
  auth_json (some p) =
      if is_certchain p.authentication_method then data_json p.authentication_data else none

  -- How a call ends for the JSON value of the packet.
  abbrev pub EndsFor : World → ℕ → Clock → Value → Result (Unit {0}) × World → Type 0
  EndsFor w socket clock json result =
      ((e : Error) × (client_cert_of (some json) ≡ err e) × (result ≡ (err e, w)))
      ⊎ ((client_cert : Option Value) × (client_cert_of (some json) ≡ ok client_cert)
          × Ends w socket clock (some json) client_cert result)

  module _ (w : World) (socket : ℕ) (clock : Clock) where
    handle_auth-none :
        (properties : Option AuthProperties)
        → auth_json properties ≡ none
        → handle_auth r config socket clock properties w ≡ (ok tt, after_reject socket w)
    unfolding handle_auth
    handle_auth-none none h = refl
    handle_auth-none (some p) h = ground arith

    module _ (p : AuthProperties) (json : Value) (h : auth_json (some p) ≡ some json) where
      handle_auth_throws :
          (e : Error)
          → client_cert_of (some json) ≡ err e
          → handle_auth r config socket clock (some p) w ≡ (err e, w)
      unfolding handle_auth
      handle_auth_throws e c = ground arith

      -- The call goes on to the certificate chain.
      pub handle_auth_checks :
          (client_cert : Option Value)
          → client_cert_of (some json) ≡ ok client_cert
          → handle_auth r config socket clock (some p) w
            ≡ check_chain r config socket clock
                (some json)
                (Certificate.init r client_cert (client_id w socket))
                w
      unfolding handle_auth
      handle_auth_checks client_cert c = ground arith

  -- The client with the session on the socket is let in with an ACL for these properties of an `auth`
  -- packet.
  pub record Admission (w : World) (socket : ℕ) (clock : Clock) (properties : AuthProperties)
      (acl : AclConfig) : Type 0 where
    pub json : Value
    pub parsed : auth_json (some properties) ≡ some json
    pub client_cert : Option Value
    pub has_cert : client_cert_of (some json) ≡ ok client_cert
    pub admits : Admits w clock (some json) client_cert (client_id w socket) acl

  -- How every call of `handleAuth` ends. Without JSON to check it refuses; with JSON that is `null` it
  -- throws and leaves all as it was. Otherwise it refuses exactly if the client's certificates make no
  -- valid chain. With a valid chain, it throws and leaves all as it was if the reading of the challenges
  -- or `verifySignature` throws, and lets the client in, with the ACL of `getAclConfig` for the chain's
  -- hashes and the verified ones, if `verifySignature` returns.
  pub handle_auth-Ends :
      (w : World) (socket : ℕ) (clock : Clock) (properties : Option AuthProperties)
      → let result = handle_auth r config socket clock properties w in
        ((auth_json properties ≡ none) × (result ≡ (ok tt, after_reject socket w)))
        ⊎ ((json : Value) × (auth_json properties ≡ some json) × EndsFor w socket clock json result)
  handle_auth-Ends w socket clock none = inl (refl, handle_auth-none w socket clock none refl)
  handle_auth-Ends w socket clock (some p) = elim (Option-cases (auth_json (some p))) [
    | inl e ↦ inl (e, handle_auth-none w socket clock (some p) e)
    | inr (json, e) ↦ inr (
      json,
      e,
      elim (Result-cases (client_cert_of (some json))) [
        | inr (x, c) ↦ inl (x, c, handle_auth_throws w socket clock p json e x c)
        | inl (client_cert, c) ↦ inr (
          client_cert,
          c,
          rw (handle_auth_checks w socket clock p json e client_cert c)
              (check_chain-Ends w socket clock (some json) client_cert),
        )
      ],
    )
  ]
