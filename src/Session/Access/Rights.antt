-- ===== src/Session/Access/Rights.antt =====
-- What the ACL of `getAclConfig` lets a client do.
use otmc_broker.Prelude.{
  ℕ, zero, suc, Text, Bool, true, List, [], ◌∷◌, ◌++◌, some, ◌≡◌, ◌≢◌, ◌↔◌, ◌⊎◌, inl, inr, arith,
  All, All-append, Any, join, drop, length, ◌-◌, subst, fun_ext, if◌then◌else◌,
}
use otmc_broker.TextSet
use otmc_broker.TextSet.{TextSet}
use otmc_broker.Topic.{slash, levels, match_topic}
use otmc_broker.Topic.Path.{IsPlain, IsUnder, pattern, match_topic-below}
use otmc_broker.Acl.{Action, AclEntry, AclConfig, get_acl_config, acl_entries, last_3}
use otmc_broker.Acl.Config.{entry, grade, current-snoc}
use otmc_broker.Session.Access.{is_readable, is_writable, may_access}

-- Access is granted exactly if some entry with a fitting action has a topic that matches.
pub may_access-eq-Any :
    (fits : Action → Bool) (acl : AclConfig) (topic : Text)
    → (may_access fits acl topic ≡ true)
      ↔ Any (λ e. (fits e.action ≡ true) × (match_topic topic e.topic ≡ true)) acl
unfolding may_access
may_access-eq-Any fits [] topic = ground arith
may_access-eq-Any fits (e ∷ acl) topic = ground (arith, may_access-eq-Any fits acl topic)

-- The topic is below the path that ends in some hash of `rest` which is fit, on top of `path`.
abbrev pub BelowFit : (Text → Bool) → List Text → List Text → List Text → Type 0
BelowFit fit path [] t = ⊥
BelowFit fit path (h ∷ rest) t =
    ((fit h ≡ true) × IsUnder (path ++ h ∷ []) t) ⊎ BelowFit fit (path ++ h ∷ []) rest t

abbrev pub AllPlain : List Text → Type 0
AllPlain = All IsPlain

none_empty : (path : List Text) → AllPlain path → All (λ g. g ≢ []) path
none_empty [] p = tt
none_empty (g ∷ path) p = (p.0.not_empty, none_empty path p.1)

pub AllPlain-drop : (n : ℕ) (hashes : List Text) → AllPlain hashes → AllPlain (drop n hashes)
AllPlain-drop zero hashes p = p
AllPlain-drop (suc n) [] p = p
AllPlain-drop (suc n) (h ∷ hashes) p = AllPlain-drop n hashes p.1

match_topic-snoc :
    (path : List Text) (h : Text) (topic : Text)
    → AllPlain path
    → IsPlain h
    → (match_topic topic (pattern (path ++ h ∷ [])) ≡ true)
      ↔ IsUnder (path ++ h ∷ []) (levels topic)
match_topic-snoc [] h topic p q = match_topic-below h [] topic (q, tt)
match_topic-snoc (g ∷ path) h topic p q =
    match_topic-below g (path ++ h ∷ []) topic (p.0, All-append IsPlain path (h ∷ []) p.1 (q, tt))

module _ (fits : Action → Bool) (verified : TextSet) (topic : Text) where
  may_access-cons :
      (e : AclEntry) (acl : AclConfig)
      → may_access fits (e ∷ acl) topic ≡ (
          if fits e.action
          then (if match_topic topic e.topic then true else may_access fits acl topic)
          else may_access fits acl topic)
  unfolding may_access
  may_access-cons e acl = ground arith

  entries-BelowFit :
      (path rest : List Text)
      → AllPlain path
      → AllPlain rest
      → (may_access fits (acl_entries (join slash path) verified rest) topic ≡ true)
        ↔ BelowFit (λ h. fits (grade verified h)) path rest (levels topic)
  unfolding acl_entries
  entries-BelowFit path [] p q = unfold may_access in ground arith
  entries-BelowFit path (h ∷ rest) p q = rw (current-snoc path h (none_empty path p)) (
      ground (
        arith,
        may_access-cons (entry verified (path ++ h ∷ []) h)
            (acl_entries (join slash (path ++ h ∷ [])) verified rest),
        match_topic-snoc path h topic p q.0,
        entries-BelowFit (path ++ h ∷ []) rest (All-append IsPlain path (h ∷ []) p (q.0, tt)) q.1,
      ))

IsUnder-prefix : (path more t : List Text) → IsUnder (path ++ more) t → IsUnder path t
IsUnder-prefix [] more t u = tt
IsUnder-prefix (h ∷ path) more [] u = u
IsUnder-prefix (h ∷ path) more (l ∷ t) u = (u.0, IsUnder-prefix path more t u.1)

BelowFit-IsUnder :
    (fit : Text → Bool) (path rest t : List Text) → BelowFit fit path rest t → IsUnder path t
BelowFit-IsUnder fit path [] t b = absurd b
BelowFit-IsUnder fit path (h ∷ rest) t (inl b) = IsUnder-prefix path (h ∷ []) t b.1
BelowFit-IsUnder fit path (h ∷ rest) t (inr b) =
    IsUnder-prefix path (h ∷ []) t (BelowFit-IsUnder fit (path ++ h ∷ []) rest t b)

writable-grade :
    (verified : TextSet) (h : Text) → is_writable (grade verified h) ≡ TextSet.has verified h
writable-grade verified h = ground arith

readable-grade : (verified : TextSet) (h : Text) → is_readable (grade verified h) ≡ true
readable-grade verified h = ground arith

first_level :
    (fit : Text → Bool) (h : Text) (rest t : List Text)
    → BelowFit fit [] (h ∷ rest) t
    → IsUnder (h ∷ []) t
first_level fit h rest t (inl b) = b.1
first_level fit h rest t (inr b) = BelowFit-IsUnder fit (h ∷ []) rest t b

module _ (hashes : List Text) (verified : TextSet) (topic : Text) (plain : All IsPlain hashes) where
  -- With the ACL that `getAclConfig` builds for plain hashes (not empty, no wildcard, no separator), a
  -- client may publish exactly on the topics at or below a path of hashes that ends in one of its
  -- verified keys, among the last three certificates of its chain.
  pub may_publish :
      (may_access is_writable (get_acl_config (some hashes) (some verified)) topic ≡ true)
      ↔ BelowFit (TextSet.has verified) [] (last_3 hashes) (levels topic)
  unfolding get_acl_config join
  may_publish =
      subst
        (λ fit.
          (may_access is_writable (acl_entries [] verified (last_3 hashes)) topic ≡ true)
          ↔ BelowFit fit [] (last_3 hashes) (levels topic))
        (fun_ext (writable-grade verified))
        (entries-BelowFit is_writable verified topic [] (last_3 hashes) tt
          (AllPlain-drop (length hashes - 3) hashes plain))

  -- With the ACL that `getAclConfig` builds for plain hashes, a client may subscribe with exactly the
  -- filters whose first level is the hash of the third last certificate of its chain, or of the first
  -- one of a shorter chain, whatever it has signed.
  pub may_subscribe :
      (h : Text) (rest : List Text)
      → last_3 hashes ≡ h ∷ rest
      → (may_access is_readable (get_acl_config (some hashes) (some verified)) topic ≡ true)
        ↔ IsUnder (h ∷ []) (levels topic)
  unfolding get_acl_config join
  may_subscribe h rest e =
      let (to, from) =
        entries-BelowFit is_readable verified topic [] (last_3 hashes) tt
          (AllPlain-drop (length hashes - 3) hashes plain) in
      (
        λ m.
            first_level (λ g. is_readable (grade verified g)) h rest (levels topic)
              (rw e at (to m)),
        λ u. from (rw e (inl (readable-grade verified h, u))),
      )
