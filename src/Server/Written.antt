-- ===== src/Server/Written.antt =====
-- Who can publish in a process.
use otmc_broker.Prelude.{
  ℕ, suc, Text, Bool, true, List, [], ◌∷◌, ◌++◌, append_assoc, map, Option, none, some, inl, inr,
  ◌≡◌, ◌∙◌, ap, subst, refl, take, get_elem?,
}
use otmc_broker.TextSet
use otmc_broker.TextSet.{TextSet}
use otmc_broker.Result.{ok}
use otmc_broker.Runtime.{Runtime}
use otmc_broker.Certificate.{Config}
use otmc_broker.Certificate.Chain.Valid.{IsTrusted}
use otmc_broker.Certificate.Signature.Possession.{
  SomePossesses, verified_is_possessed, get_public_key_hash_keys,
}
use otmc_broker.Json.{Value, iterate}
use otmc_broker.Topic.{levels}
use otmc_broker.Topic.Path.{IsPlain, IsUnder}
use otmc_broker.Session.Auth.Rights.{checked_fresh}
use otmc_broker.Acl.{AclConfig, get_acl, get_acl_config, last_3}
use otmc_broker.World.{start}
use otmc_broker.Session.Access.{is_writable, may_access}
use otmc_broker.Session.Access.Rights.{BelowFit, may_publish}
use otmc_broker.Session.Auth.Grant.{checked, hashed}
use otmc_broker.Server.Keeps.{world}
use otmc_broker.Server.Granted.{Grant, run-Grant}
use otmc_broker.Server.Confined.{keys_plain}
use otmc_broker.Server.{Event, running, run}

-- An ACL that lets anything be written was built from hashes and verified keys.
written_keys :
    (keys : Option (List Text)) (verified : Option TextSet) (topic : Text)
    → may_access is_writable (get_acl_config keys verified) topic ≡ true
    → (hashes : List Text) × (v : TextSet) × (keys ≡ some hashes)
      × (verified ≡ some v)
      × (may_access is_writable (get_acl_config (some hashes) (some v)) topic ≡ true)
unfolding get_acl_config may_access
written_keys none verified topic h = cc
written_keys (some hashes) none topic h = cc
written_keys (some hashes) (some v) topic h = (hashes, v, refl, refl, h)

-- The hash at which the path ends.
BelowFit-at :
    (fit : Text → Bool) (path rest t : List Text)
    → BelowFit fit path rest t
    → (i : ℕ) × (hash : Text) × (get_elem? rest i ≡ some hash)
      × (fit hash ≡ true)
      × IsUnder (path ++ take (suc i) rest) t
BelowFit-at fit path [] t b = absurd b
BelowFit-at fit path (h ∷ rest) t (inl b) = (0, h, refl, b.0, b.1)
BelowFit-at fit path (h ∷ rest) t (inr b) =
    let (i, hash, at, fits, under) = BelowFit-at fit (path ++ h ∷ []) rest t b in
    (
      suc i,
      hash,
      at,
      fits,
      subst (λ p. IsUnder p t) (append_assoc path (h ∷ []) (take (suc i) rest)) under,
    )

module _ (r : Runtime) (config : Config) (events : List Event) where
  -- The client was let in with this ACL by an `auth` packet of the run, with a trusted chain, and proved
  -- by a challenge of that packet that it holds the key with the hash. The topic is at or below the path
  -- of the hashes of the last three certificates up to this one.
  pub record Writer (id : Text) (acl : AclConfig) (topic : Text) : Type 0 where
    pub grant : Grant r config events id acl
    pub trusted :
        IsTrusted r config grant.clock.chain_now grant.client_cert
          (checked r config grant.clock grant.client_cert id).0.full_chain
    pub hashes : List Text
    pub of_chain :
        hashes ≡ map r.key_hash (checked r config grant.clock grant.client_cert id).0.full_chain
    pub place : ℕ
    pub hash : Text
    pub at_place : get_elem? (last_3 hashes) place ≡ some hash
    pub below : IsUnder (take (suc place) (last_3 hashes)) (levels topic)
    pub list : List Value
    pub listed : iterate grant.admits.challenges ≡ ok list
    pub possessed :
        SomePossesses r grant.before.collect
          (hashed r config grant.clock grant.client_cert id).0
          grant.clock.challenge_now
          hash
          list

  -- If the hashes of all keys are plain, then after any sequence of events from the start, a client whose
  -- ACL lets it publish on a topic was let in during this run: by an `auth` packet that is among the
  -- events, on a socket that was the client's when the packet was handled, with a trusted chain, such
  -- that the topic is at or below a path of hashes of the chain's last three keys, and a challenge of the
  -- packet proves that the client holds the key in whose hash the path ends.
  pub run-Writer :
      (plain : (c : r.Cert) → IsPlain (r.key_hash c)) (id topic : Text) (acl : AclConfig)
      → get_acl (world (run r config (running start) events)).acls id ≡ some acl
      → may_access is_writable acl topic ≡ true
      → Writer id acl topic
  run-Writer plain id topic acl e allowed =
      let (g, trusted) = run-Grant r config events id acl e in
      let c = (checked r config g.clock g.client_cert id).0 in
      let (hashes, v, keys, verified, writes) =
        written_keys (hashed r config g.clock g.client_cert id).1 g.admits.verified topic
          (subst (λ l. may_access is_writable l topic ≡ true) g.admits.acl_is allowed) in
      let of_chain = get_public_key_hash_keys r c hashes keys in
      let below =
        (may_publish hashes v topic
            (keys_plain r config events plain c.full_chain c hashes refl keys)).0
          writes in
      let (i, hash, at, is_verified, under) =
        BelowFit-at (TextSet.has v) [] (last_3 hashes) (levels topic) below in
      let (list, listed, possessed) =
        verified_is_possessed r g.before.collect c g.clock.challenge_now g.admits.challenges v hash
          (checked_fresh r config g.clock g.client_cert id) (g.admits.verifies ∙ ap ok verified)
          is_verified in
      record {
        grant = g;
        trusted = trusted;
        hashes = hashes;
        of_chain = of_chain;
        place = i;
        hash = hash;
        at_place = at;
        below = under;
        list = list;
        listed = listed;
        possessed = possessed;
      }
