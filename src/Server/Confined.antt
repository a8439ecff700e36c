-- ===== src/Server/Confined.antt =====
-- Who is subscribed in a process, and what reaches them.
use otmc_broker.Prelude.{
  ℕ, Text, text_eq, text_eq_iff, Bool-cases, true, ◌&&◌, List, [], ◌∷◌, map, Option, none, some,
  ◌≡◌, ◌⊎◌, inl, inr, refl, subst, sym, arith, All, length, ◌-◌,
}
use mathlib.Core.Option.{some-injective}
use otmc_broker.Map
use otmc_broker.TextSet
use otmc_broker.TextSet.{TextSet}
use otmc_broker.Runtime.{Runtime}
use otmc_broker.Certificate.{Config, Certificate, get_public_key_hash}
use otmc_broker.Certificate.Chain.Valid.{IsTrusted}
use otmc_broker.Certificate.Signature.Possession.{get_public_key_hash_keys}
use otmc_broker.Topic.{levels}
use otmc_broker.Topic.Path.{IsPlain, IsUnder}
use otmc_broker.Topics.{add_subscription, pattern_levels, get_subscriptions}
use otmc_broker.Topics.Members.{subscribed, subscribed-add_subscription, subscribed-remove_client}
use otmc_broker.Topics.Recipients.{get_subscriptions_sound, pattern_levels-IsUnder}
use otmc_broker.Acl.{AclConfig, get_acl, get_acl_config, last_3}
use otmc_broker.World.{World, start, client_id}
use otmc_broker.Session.Access.{is_readable, may_access}
use otmc_broker.Session.Access.Rights.{AllPlain-drop, may_subscribe}
use otmc_broker.Session.Auth.Grant.{checked, hashed}
use otmc_broker.Session.Keeps.{Laws}
use otmc_broker.Server.Keeps.{world, Heard, run_kept}
use otmc_broker.Server.Invariant.{IsValid, IsValid-Laws, start-IsValid}
use otmc_broker.Server.Granted.{
  Grant, Grant-IsTrusted, AllGranted, AllGranted-Laws, start-AllGranted,
}
use otmc_broker.Server.{Event, running, run}

module _ (r : Runtime) (config : Config) (events : List Event) where
  -- Some ACL that was granted to the client lets it read the filter.
  abbrev pub Readable : Text → Text → Type 0
  Readable j f =
      (acl : AclConfig) × Grant r config events j acl × (may_access is_readable acl f ≡ true)

  -- The maps are well formed, each ACL was granted, and each subscription is for a filter that some ACL
  -- that was granted to its client lets read.
  pub record IsConfined (w : World) : Type 0 where
    pub valid : IsValid w
    pub granted : AllGranted r config events w
    pub readable : (f j : Text) → subscribed w.subscriptions f j ≡ true → Readable j f

  abbrev valid_laws : Laws IsValid (Heard r config events) r config
  valid_laws = IsValid-Laws r config (Heard r config events)

  abbrev granted_laws : Laws (AllGranted r config events) (Heard r config events) r config
  granted_laws = AllGranted-Laws r config events

  Readable-added :
      (w : World) (socket : ℕ) (acl : AclConfig) (topic : Text)
      → get_acl w.acls (client_id w socket) ≡ some acl
      → may_access is_readable acl topic ≡ true
      → IsConfined w
      → (f j : Text)
      → subscribed (add_subscription w.subscriptions topic (client_id w socket)) f j ≡ true
      → Readable j f
  Readable-added w socket acl topic e allowed v f j h =
      elim (Bool-cases (text_eq topic f && text_eq (client_id w socket) j)) [
        | inl same ↦
            let same_topic : topic ≡ f = ground (arith, text_eq_iff topic f) in
            let same_id : client_id w socket ≡ j =
              ground (arith, text_eq_iff (client_id w socket) j) in
            subst (Readable j) same_topic (
              subst (λ k. Readable k topic) same_id
                (acl, v.granted (client_id w socket) acl e, allowed))
        | inr other ↦ v.readable f j (
            ground
              (arith, subscribed-add_subscription w.subscriptions topic (client_id w socket) f j))
      ]

  IsConfined-Laws : Laws IsConfined (Heard r config events) r config
  IsConfined-Laws = record {
    framed = λ w sessions output v. record {
      valid = valid_laws.framed w sessions output v.valid;
      granted = granted_laws.framed w sessions output v.granted;
      readable = v.readable;
    };
    connected = λ w socket id challenge v. record {
      valid = valid_laws.connected w socket id challenge v.valid;
      granted = granted_laws.connected w socket id challenge v.granted;
      readable = v.readable;
    };
    admitted = λ w socket clock properties acl h a v. record {
      valid = valid_laws.admitted w socket clock properties acl h a v.valid;
      granted = granted_laws.admitted w socket clock properties acl h a v.granted;
      readable = v.readable;
    };
    subscribed = λ w socket acl topic e allowed v. record {
      valid = valid_laws.subscribed w socket acl topic e allowed v.valid;
      granted = granted_laws.subscribed w socket acl topic e allowed v.granted;
      readable = Readable-added w socket acl topic e allowed v;
    };
    forgotten = λ w id v. record {
      valid = valid_laws.forgotten w id v.valid;
      granted = granted_laws.forgotten w id v.granted;
      readable = v.readable;
    };
    removed = λ w id v. record {
      valid = valid_laws.removed w id v.valid;
      granted = granted_laws.removed w id v.granted;
      readable = λ f j h. v.readable f j (
          ground (
            arith,
            subscribed-remove_client w.subscriptions id f j v.valid.subscriptions.distinct,
          ));
    };
  }

  start-IsConfined : IsConfined start
  start-IsConfined = record {
    valid = start-IsValid;
    granted = start-AllGranted r config events;
    readable = λ f j h. absurd (unfold subscribed Map.get in cc);
  }

  run-IsConfined : IsConfined (world (run r config (running start) events))
  run-IsConfined = run_kept IsConfined r config events IsConfined-Laws start-IsConfined

  -- The hashes from which an ACL that lets anything be read was built.
  hashes_of :
      (keys : Option (List Text)) (verified : Option TextSet) (f : Text)
      → may_access is_readable (get_acl_config keys verified) f ≡ true
      → (hashes : List Text) × (v : TextSet) × (keys ≡ some hashes) × (verified ≡ some v)
  unfolding get_acl_config may_access
  hashes_of none verified f h = cc
  hashes_of (some hashes) none f h = cc
  hashes_of (some hashes) (some v) f h = (hashes, v, refl, refl)

  module _ (plain : (c : r.Cert) → IsPlain (r.key_hash c)) where
    plain_hashes : (chain : List r.Cert) → All IsPlain (map r.key_hash chain)
    plain_hashes [] = tt
    plain_hashes (c ∷ chain) = (plain c, plain_hashes chain)

    pub keys_plain :
        (chain : List r.Cert) (c : Certificate r) (hashes : List Text)
        → c.full_chain ≡ chain
        → (get_public_key_hash r c).1 ≡ some hashes
        → All IsPlain hashes
    unfolding get_public_key_hash
    keys_plain [] c hashes s e = absurd (ground arith)
    keys_plain (root ∷ chain) c hashes s e =
        subst (All IsPlain) {x = map r.key_hash (root ∷ chain)} (some-injective _ _ (ground arith))
          (plain_hashes (root ∷ chain))

  -- The client was let in by an `auth` packet of the run, with a trusted chain whose third last key, or
  -- first key if there are fewer, has the hash `h`.
  pub record Owns (j h : Text) : Type 0 where
    pub acl : AclConfig
    pub grant : Grant r config events j acl
    pub trusted :
        IsTrusted r config grant.clock.chain_now grant.client_cert
          (checked r config grant.clock grant.client_cert j).0.full_chain
    pub hashes : List Text
    pub of_chain :
        hashes ≡ map r.key_hash (checked r config grant.clock grant.client_cert j).0.full_chain
    pub more : List Text
    pub top : last_3 hashes ≡ h ∷ more

  -- An ACL that lets something be read is for a chain with hashes.
  top_of :
      (hashes : List Text) (v : TextSet) (f : Text)
      → may_access is_readable (get_acl_config (some hashes) (some v)) f ≡ true
      → (l : List Text) → last_3 hashes ≡ l
      → (h : Text) × (more : List Text) × (last_3 hashes ≡ h ∷ more)
  unfolding get_acl_config may_access
  top_of hashes v f allowed [] e = absurd (ground arith)
  top_of hashes v f allowed (h ∷ more) e = (h, more, e)

  -- The first level of a readable filter.
  owned :
      (plain : (c : r.Cert) → IsPlain (r.key_hash c)) (j f : Text)
      → Readable j f
      → (h : Text) × Owns j h × IsUnder (h ∷ []) (levels f)
  owned plain j f (acl, g, allowed) =
      let c = (checked r config g.clock g.client_cert j).0 in
      let read_keys = subst (λ l. may_access is_readable l f ≡ true) g.admits.acl_is allowed in
      let (hashes, v, keys, verified) =
        hashes_of (hashed r config g.clock g.client_cert j).1 g.admits.verified f read_keys in
      let read_hashes : may_access is_readable (get_acl_config (some hashes) (some v)) f ≡ true =
        rw (keys, verified) at read_keys in
      let (h, more, top) = top_of hashes v f read_hashes (last_3 hashes) refl in
      (
        h,
        record {
          acl = acl;
          grant = g;
          trusted = Grant-IsTrusted r config events j acl g;
          hashes = hashes;
          of_chain = get_public_key_hash_keys r c hashes keys;
          more = more;
          top = top;
        },
        (may_subscribe hashes v f (keys_plain plain c.full_chain c hashes refl keys) h more top).0
            read_hashes,
      )

  plain_top :
      (hashes : List Text) (h : Text) (more : List Text)
      → All IsPlain hashes
      → last_3 hashes ≡ h ∷ more
      → IsPlain h
  unfolding last_3
  plain_top hashes h more p e =
      (subst (All IsPlain) e (AllPlain-drop (length hashes - 3) hashes p)).0

  reached :
      (h topic f : Text)
      → IsPlain h
      → IsUnder (h ∷ []) (levels f)
      → (f ≡ topic) ⊎ (pattern_levels (levels topic) (levels f) ≡ true)
      → IsUnder (h ∷ []) (levels topic)
  reached h topic f plain u (inl same) = subst (λ t. IsUnder (h ∷ []) (levels t)) same u
  reached h topic f plain u (inr accepts) =
      pattern_levels-IsUnder (h ∷ []) (levels f) (levels topic) (plain, tt) u accepts

  -- If the hashes of all keys are plain (not empty, no wildcard, no separator), then after any sequence
  -- of events from the start, `getSubscriptions` lists for a topic only clients that were let in during
  -- this run: by an `auth` packet that is among the events, on a socket that was the listed client's when
  -- the packet was handled, with certificates that made a trusted chain, whose third last key, or first
  -- key of a shorter chain, has the topic's first level as hash.
  pub run-Owns :
      (plain : (c : r.Cert) → IsPlain (r.key_hash c)) (topic j : Text)
      → TextSet.has
          (get_subscriptions (world (run r config (running start) events)).subscriptions topic)
          j
        ≡ true
      → (h : Text) × Owns j h × IsUnder (h ∷ []) (levels topic)
  run-Owns plain topic j e =
      let w = world (run r config (running start) events) in
      let confined = run-IsConfined in
      let (f, s, accepts) =
        get_subscriptions_sound w.subscriptions topic j confined.valid.subscriptions.distinct e in
      let (h, owns, u) = owned plain j f (confined.readable f j s) in
      let c = (checked r config owns.grant.clock owns.grant.client_cert j).0 in
      let hashes_plain =
        subst (All IsPlain) (sym owns.of_chain) (plain_hashes plain c.full_chain) in
      (
        h,
        owns,
        reached h topic f (plain_top owns.hashes h owns.more hashes_plain owns.top) u accepts,
      )
