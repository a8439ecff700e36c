-- ===== src/Session/Auth/Rights.antt =====
-- What the ACL of an admitted client rests on: a trusted chain for its certificates, and a signature
-- for each right to write. No signature is asked for to read.
use otmc_broker.Prelude.{
  ℕ, zero, suc, Text, codes, true, List, [], ◌∷◌, ◌++◌, map, Option, none, some, ◌≡◌, ◌≢◌, refl,
  sym, take, arith, ap, ◌∙◌, subst, All, get_elem?, if◌then◌else◌, length, is_empty,
}
use otmc_broker.TextSet
use otmc_broker.TextSet.{TextSet}
use otmc_broker.Result.{ok}
use otmc_broker.Json.{Value, array, nil, property, iterate}
use otmc_broker.Runtime.{Runtime}
use otmc_broker.Certificate
use otmc_broker.Certificate.{Config, Certificate, is_valid, get_public_key_hash}
use otmc_broker.Certificate.Chain.Valid.{IsTrusted, is_valid-IsTrusted, is_valid_keeps}
use otmc_broker.Certificate.Signature.{verify_signature, verify_loop}
use otmc_broker.Certificate.Signature.Possession.{
  SomePossesses, verified_is_possessed, get_public_key_hash_keys,
}
use otmc_broker.Topic.Path.{pattern}
use mathlib.Core.Option.{some-injective}
use otmc_broker.Acl.{read, all, AclEntry, AclConfig, acl_entries, last_3, get_acl_config}
use otmc_broker.Acl.Config.{grade, length-acl_entries, get_acl_config_lem}
use otmc_broker.Packet.{AuthProperties}
use otmc_broker.World.{World, client_id}
use otmc_broker.Session.Auth.{
  Clock, client_cert_of, accept, length_is_zero, check_chain, handle_auth,
}
use otmc_broker.Session.Auth.Grant.{Admits, checked, hashed, auth_json, handle_auth_checks}

entries_action :
    (current : Text) (verified : TextSet) (rest : List Text) (i : ℕ) (e : AclEntry)
    → get_elem? (acl_entries current verified rest) i ≡ some e
    → (h : Text) × (get_elem? rest i ≡ some h) × (e.action ≡ grade verified h)
unfolding acl_entries
entries_action current verified [] i e h = cc
entries_action current verified (g ∷ rest) zero e h = (g, refl, ground arith)
entries_action current verified (g ∷ rest) (suc i) e h =
    entries_action (if is_empty current then g else current ++ b'/' ∷ g) verified rest i e h

-- An entry with `all` is for a verified hash.
all_is_verified :
    (hashes : Option (List Text)) (verified : Option TextSet) (i : ℕ) (e : AclEntry)
    → get_elem? (get_acl_config hashes verified) i ≡ some e
    → e.action ≡ all
    → (hs : List Text) × (v : TextSet) × (hash : Text) × (hashes ≡ some hs)
      × (verified ≡ some v)
      × (get_elem? (last_3 hs) i ≡ some hash)
      × (TextSet.has v hash ≡ true)
unfolding get_acl_config
all_is_verified none verified i e h a = cc
all_is_verified (some hs) none i e h a = cc
all_is_verified (some hs) (some v) i e h a =
    let (hash, at, graded) = entries_action [] v (last_3 hs) i e h in
    (hs, v, hash, refl, refl, at, ground arith)

placed_topic :
    (hashes : List Text) (v : TextSet) (i : ℕ) (hash : Text) (e : AclEntry)
    → All (λ g. g ≢ []) hashes
    → get_elem? (last_3 hashes) i ≡ some hash
    → get_elem? (get_acl_config (some hashes) (some v)) i ≡ some e
    → e.topic ≡ pattern (take (suc i) (last_3 hashes))
placed_topic hashes v i hash e none_empty at_place placed =
    let (_, entries) = get_acl_config_lem v hashes none_empty in
    ap (λ x. x.topic) (some-injective e _ (sym placed ∙ entries i hash at_place))

module _ (r : Runtime) (config : Config) where
  open r use {Cert, key_hash, fingerprint}

  pub checked_fresh :
      (clock : Clock) (client_cert : Option Value) (id : Text)
      → (checked r config clock client_cert id).0.full_chain_map ≡ []
  unfolding Certificate.init
  checked_fresh clock client_cert id =
      (is_valid_keeps r config clock.chain_now (Certificate.init r client_cert id)).2

  module _ (w : World) (socket : ℕ) (clock : Clock) (json client_cert : Option Value) where
    -- Whoever is let in has shown a chain of at least two certificates that are in time, each issued by
    -- the one before, from a configured self-signed root to the client's own first certificate.
    pub Admits-IsTrusted :
        (acl : AclConfig)
        → Admits r config w clock json client_cert (client_id w socket) acl
        → IsTrusted r config clock.chain_now client_cert
            (checked r config clock client_cert (client_id w socket)).0.full_chain
    unfolding Certificate.init
    Admits-IsTrusted acl a =
        is_valid-IsTrusted r config clock.chain_now
          (Certificate.init r client_cert (client_id w socket)) a.valid

    none_empty :
        (some_hash : (c : Cert) → key_hash c ≢ []) (chain : List Cert)
        → All (λ hash. hash ≢ []) (map key_hash chain)
    none_empty some_hash [] = tt
    none_empty some_hash (c ∷ chain) = (some_hash c, none_empty some_hash chain)

    -- The entry at place i of the ACL is for the path of hashes up to the i-th of the last three keys of
    -- the chain, and the client has proved to hold the key that this path ends in.
    pub record IsProved (i : ℕ) (e : AclEntry) : Type 0 where
      pub hashes : List Text
      pub of_chain :
          hashes
          ≡ map key_hash (checked r config clock client_cert (client_id w socket)).0.full_chain
      pub hash : Text
      pub at_place : get_elem? (last_3 hashes) i ≡ some hash
      pub topic_is : e.topic ≡ pattern (take (suc i) (last_3 hashes))
      pub challenges : Option Value
      pub has_challenges : property json (codes "challenges") ≡ ok challenges
      pub list : List Value
      pub listed : iterate challenges ≡ ok list
      pub possessed :
          SomePossesses r w.collect
            (hashed r config clock client_cert (client_id w socket)).0
            clock.challenge_now
            hash
            list

    possessed_by :
        (acl : AclConfig) (v : TextSet) (hash : Text)
        (a : Admits r config w clock json client_cert (client_id w socket) acl)
        → a.verified ≡ some v
        → TextSet.has v hash ≡ true
        → (list : List Value) × (iterate a.challenges ≡ ok list)
          × SomePossesses r w.collect
              (hashed r config clock client_cert (client_id w socket)).0
              clock.challenge_now
              hash
              list
    possessed_by acl v hash a verified h =
        verified_is_possessed r w.collect
          (checked r config clock client_cert (client_id w socket)).0 clock.challenge_now
          a.challenges v hash (checked_fresh clock client_cert (client_id w socket))
          (a.verifies ∙ ap ok verified) h

    -- No hash is empty. An entry with `all` in the ACL of an admitted client is for a path of hashes of
    -- its chain: the entry at place i is for the hashes of the last three certificates, from the first to
    -- the i-th, and a challenge of this very packet proves the key of the i-th: some certificate of the
    -- chain has a key with this hash, the challenge's data holds the client's pending challenge and a
    -- time near to the clock, and the signature over that data verifies with this certificate.
    pub all-Proves :
        (some_hash : (c : Cert) → key_hash c ≢ []) (acl : AclConfig) (i : ℕ) (e : AclEntry)
        → Admits r config w clock json client_cert (client_id w socket) acl
        → get_elem? acl i ≡ some e
        → e.action ≡ all
        → IsProved i e
    all-Proves some_hash acl i e a at is_all =
        let keys = hashed r config clock client_cert (client_id w socket) in
        let placed = subst (λ l. get_elem? l i ≡ some e) a.acl_is at in
        let (hs, v, hash, has_keys, verified, at_place, is_verified) =
          all_is_verified keys.1 a.verified i e placed is_all in
        let of_chain =
          get_public_key_hash_keys r (checked r config clock client_cert (client_id w socket)).0 hs
            has_keys in
        let (list, listed, possessed) = possessed_by acl v hash a verified is_verified in
        record {
          hashes = hs;
          of_chain = of_chain;
          hash = hash;
          at_place = at_place;
          topic_is =
              placed_topic hs v i hash e
                (subst (All (λ g. g ≢ [])) (sym of_chain) (none_empty some_hash _)) at_place
                (rw (has_keys, verified) at placed);
          challenges = a.challenges;
          has_challenges = a.has_challenges;
          list = list;
          listed = listed;
          possessed = possessed;
        }

entries_read :
    (current : Text) (rest : List Text) → All (λ e. e.action ≡ read) (acl_entries current [] rest)
unfolding acl_entries TextSet.has
entries_read current [] = tt
entries_read current (h ∷ rest) = (refl, entries_read _ rest)

module _ (r : Runtime) (config : Config) where
  -- With an empty list of challenges `verifySignature` finds no key, and that is no refusal.
  no_challenges :
      (c : Certificate r) (clock : Clock) (w : World)
      → (k : r.Cert) (ks : List r.Cert) → c.full_chain ≡ k ∷ ks
      → verify_signature r w.collect c clock.challenge_now (some (array nil)) ≡ ok (some [])
  unfolding verify_signature verify_loop iterate
  no_challenges c clock w k ks e = rw (e, verify_signature)

  pub hashed_some :
      (c : Certificate r) (k : r.Cert) (ks : List r.Cert)
      → c.full_chain ≡ k ∷ ks
      → ((get_public_key_hash r c).1 ≡ some (map r.key_hash (k ∷ ks)))
        × ((get_public_key_hash r c).0.full_chain ≡ k ∷ ks)
  unfolding get_public_key_hash
  hashed_some c k ks e = ground arith

  accepted :
      (w : World) (socket : ℕ) (clock : Clock) (json client_cert : Option Value)
      (hashes : List Text)
      → (checked r config clock client_cert (client_id w socket)).1 ≡ true
      → property json (codes "challenges") ≡ ok (some (array nil))
      → (hashed r config clock client_cert (client_id w socket)).1 ≡ some hashes
      → verify_signature r w.collect
          (hashed r config clock client_cert (client_id w socket)).0
          clock.challenge_now
          (some (array nil))
        ≡ ok (some [])
      → check_chain r config socket clock json
          (Certificate.init r client_cert (client_id w socket))
          w
        ≡ accept socket (acl_entries [] [] (last_3 hashes)) w
  unfolding check_chain length_is_zero get_acl_config
  accepted w socket clock json client_cert hashes valid empty h v = rw (valid, empty) (rw v (rw h))

  -- The check for a failed verification never takes effect: an `auth` packet with a valid chain and an
  -- empty list of challenges, which proves the possession of no key, is answered with success, and the
  -- client gets an ACL with an entry for each of the last three hashes of the chain, all of them `read`.
  pub unsigned_is_admitted :
      (w : World) (socket : ℕ) (clock : Clock) (p : AuthProperties) (json : Value)
      (client_cert : Option Value)
      → auth_json r config (some p) ≡ some json
      → client_cert_of (some json) ≡ ok client_cert
      → property (some json) (codes "challenges") ≡ ok (some (array nil))
      → (checked r config clock client_cert (client_id w socket)).1 ≡ true
      → (hashes : List Text) × (acl : AclConfig) × ((hashed r config clock client_cert
            (client_id w socket)).1
          ≡ some hashes)
        × (handle_auth r config socket clock (some p) w ≡ accept socket acl w)
        × (length acl ≡ length (last_3 hashes))
        × All (λ e. e.action ≡ read) acl
  unsigned_is_admitted w socket clock p json client_cert parsed certified empty valid =
      let c = (checked r config clock client_cert (client_id w socket)).0 in
      let trusted =
        is_valid-IsTrusted r config clock.chain_now
          (Certificate.init r client_cert (client_id w socket)) valid in
      let (some_hashes, same_chain) = hashed_some c trusted.root trusted.rest trusted.shape in
      let hashes = map r.key_hash (trusted.root ∷ trusted.rest) in
      (
        hashes,
        acl_entries [] [] (last_3 hashes),
        some_hashes,
        handle_auth_checks r config w socket clock p json parsed client_cert certified
            ∙ accepted w socket clock (some json) client_cert hashes valid empty some_hashes (
                no_challenges (hashed r config clock client_cert (client_id w socket)).0 clock w
                  trusted.root trusted.rest same_chain),
        length-acl_entries [] [] (last_3 hashes),
        entries_read [] (last_3 hashes),
      )
