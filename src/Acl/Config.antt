-- ===== src/Acl/Config.antt =====
-- What `getAclConfig` builds.
use otmc_broker.Prelude.{
  ℕ, suc, zero, ◌-◌, min, Text, join, List, [], ◌∷◌, ◌++◌, append_assoc, some, ◌≡◌, ◌≢◌, refl, ap,
  arith, length, take, drop, All, get_elem?, length-drop, is_empty, if◌then◌else◌, false, sym,
  subst, All-append,
}
use mathlib.Core.Option.{some-injective}
use otmc_broker.TextSet
use otmc_broker.TextSet.{TextSet}
use otmc_broker.Topic.{slash}
use otmc_broker.Topic.Path.{pattern}
use otmc_broker.Acl.{Action, read, all, AclEntry, acl_entries, last_3, get_acl_config}

abbrev pub grade : TextSet → Text → Action
grade verified hash = if TextSet.has verified hash then all else read

abbrev pub entry : TextSet → List Text → Text → AclEntry
entry verified path hash = record { topic = pattern path; action = grade verified hash }

join-snoc :
    (g : Text) (path : List Text) (h : Text)
    → join slash ((g ∷ path) ++ h ∷ []) ≡ join slash (g ∷ path) ++ slash ∷ h
unfolding join
join-snoc g [] h = refl
join-snoc g (f ∷ path) h =
    rw (join-snoc f path h) (sym (append_assoc g (slash ∷ join slash (f ∷ path)) (slash ∷ h)))

join_not_empty : (g : Text) (path : List Text) → g ≢ [] → is_empty (join slash (g ∷ path)) ≡ false
unfolding join
join_not_empty [] path h = absurd (h refl)
join_not_empty (c ∷ g) [] h = refl
join_not_empty (c ∷ g) (f ∷ path) h = refl

-- The path text that the loop has reached after some levels.
pub current-snoc :
    (path : List Text) (h : Text)
    → All (λ g. g ≢ []) path
    → (if is_empty (join slash path) then h else join slash path ++ slash ∷ h)
      ≡ join slash (path ++ h ∷ [])
unfolding join
current-snoc [] h p = refl
current-snoc (g ∷ path) h p = rw (join-snoc g path h, join_not_empty g path p.0)

abbrev NoneEmpty : List Text → Type 0
NoneEmpty = All (λ g. g ≢ [])

NoneEmpty-drop : (n : ℕ) (hashes : List Text) → NoneEmpty hashes → NoneEmpty (drop n hashes)
NoneEmpty-drop zero hashes p = p
NoneEmpty-drop (suc n) [] p = p
NoneEmpty-drop (suc n) (h ∷ hashes) p = NoneEmpty-drop n hashes p.1

module _ (verified : TextSet) where
  entries_at :
      (path rest : List Text) (i : ℕ) (h : Text)
      → NoneEmpty path
      → NoneEmpty rest
      → get_elem? rest i ≡ some h
      → get_elem? (acl_entries (join slash path) verified rest) i
        ≡ some (entry verified (path ++ take (suc i) rest) h)
  unfolding acl_entries
  entries_at path [] i h p q e = cc
  entries_at path (g ∷ rest) zero h p q e =
      rw (current-snoc path g p)
        (ap (λ x. some (entry verified (path ++ g ∷ []) x)) (some-injective g h e))
  entries_at path (g ∷ rest) (suc i) h p q e = rw (current-snoc path g p) (
      subst
        (λ xs.
          get_elem? (acl_entries (join slash (path ++ g ∷ [])) verified rest) i
          ≡ some (entry verified xs h))
        (append_assoc path (g ∷ []) (take (suc i) rest))
        (entries_at (path ++ g ∷ []) rest i h (All-append _ path (g ∷ []) p (q.0, tt)) q.1 e))

  pub length-acl_entries :
      (current : Text) (rest : List Text) → length (acl_entries current verified rest) ≡ length rest
  unfolding acl_entries
  length-acl_entries current [] = refl
  length-acl_entries current (h ∷ rest) = ap suc (length-acl_entries _ rest)

  -- If no hash is empty, the ACL has an entry for each of the last three hashes, or for each hash if
  -- there are fewer, in order: the path of the hashes so far with `/#`, `all` if the hash is among the verified ones and `read` if
  -- not.
  pub get_acl_config_lem :
      (hashes : List Text)
      → NoneEmpty hashes
      → let config = get_acl_config (some hashes) (some verified) in
        (length config ≡ min 3 (length hashes))
        × ((i : ℕ) (h : Text)
            → get_elem? (last_3 hashes) i ≡ some h
            → get_elem? config i ≡ some (entry verified (take (suc i) (last_3 hashes)) h))
  unfolding get_acl_config join
  get_acl_config_lem hashes p = (
    omega (arith, length-acl_entries [] (last_3 hashes), length-drop (length hashes - 3) hashes),
    λ i h e. entries_at [] (last_3 hashes) i h tt (NoneEmpty-drop _ hashes p) e,
  )
