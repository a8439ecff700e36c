-- ===== src/MtlsClient/Topics.antt =====
-- The spaces that the client of test/client_mtls/index.js reads from the ACL of `getAclConfig`.
use otmc_broker.Prelude.{
  ℕ, Text, codes, text_eq, text_eq_iff, Bool-cases, true, false, List, [], ◌∷◌, ◌++◌, ◌-◌, some,
  ◌≡◌, inl, inr, refl, ap, arith, All, join, length, length-append, split, split-append, subst,
}
use otmc_broker.TextSet
use otmc_broker.TextSet.{TextSet}
use otmc_broker.Topic.{slash, levels}
use otmc_broker.Topic.Path.{IsPlain, levels-join}
use otmc_broker.Acl.{acl_entries, last_3, get_acl_config}
use otmc_broker.Acl.Config.{entry, current-snoc}
use otmc_broker.Session.Access.{is_readable, is_writable, may_access}
use otmc_broker.Session.Access.Rights.{AllPlain-drop, may_publish, may_subscribe}
use otmc_broker.MtlsClient.{
  without_end, space_of, Spaces, parse_space_info, sub_topic_3, pub_topic_1,
}

longer :
    (c : ℕ) (t end suffix : Text)
    → length end ≡ 2
    → length suffix ≡ 2
    → text_eq (c ∷ (t ++ end)) suffix ≡ false
longer c t end suffix e s = elim (Bool-cases (text_eq (c ∷ (t ++ end)) suffix)) [
  | inr differ ↦ differ
  | inl same_text ↦
      let same = ap length ((text_eq_iff (c ∷ (t ++ end)) suffix).0 same_text) in
      absurd (omega (arith, same, length-append t end, e, s))
]

without_end-append : (t : Text) → without_end (codes "/#") (t ++ codes "/#") ≡ t
unfolding without_end text_eq
without_end-append [] = refl
without_end-append (c ∷ t) =
    rw (longer c t (codes "/#") (codes "/#") refl refl) (ap (λ s. c ∷ s) (without_end-append t))

without_end-other : (t : Text) → without_end (codes "/+") (t ++ codes "/#") ≡ t ++ codes "/#"
unfolding without_end text_eq
without_end-other [] = refl
without_end-other (c ∷ t) =
    rw (longer c t (codes "/#") (codes "/+") refl refl) (ap (λ s. c ∷ s) (without_end-other t))

space_of-entry :
    (verified : TextSet) (path : List Text) (hash : Text)
    → space_of (some (entry verified path hash)) ≡ some (join slash path)
unfolding space_of
space_of-entry verified path hash =
    rw (without_end-other (join slash path), without_end-append (join slash path)) refl

module _ (verified : TextSet) (top mid leaf : Text)
    (plain : All IsPlain (top ∷ mid ∷ leaf ∷ [])) where
  entries_of_three :
      acl_entries [] verified (top ∷ mid ∷ leaf ∷ [])
      ≡ entry verified (top ∷ []) top
        ∷ entry verified (top ∷ mid ∷ []) mid
        ∷ entry verified (top ∷ mid ∷ leaf ∷ []) leaf
        ∷ []
  unfolding acl_entries TextSet.has join
  entries_of_three =
      rw
        (
          current-snoc (top ∷ []) mid (plain.0.not_empty, tt),
          current-snoc (top ∷ mid ∷ []) leaf (plain.0.not_empty, (plain.1.0.not_empty, tt)),
        )
        refl

  spaces_of_three :
      parse_space_info (some (acl_entries [] verified (top ∷ mid ∷ leaf ∷ []))) ≡ record {
        top_space = some top;
        leaf_space = some (join slash (top ∷ mid ∷ leaf ∷ []));
        mid_space = some (join slash (top ∷ mid ∷ []));
      }
  unfolding parse_space_info join
  spaces_of_three =
      rw
        (
          entries_of_three,
          space_of-entry verified (top ∷ []) top,
          space_of-entry verified (top ∷ mid ∷ []) mid,
          space_of-entry verified (top ∷ mid ∷ leaf ∷ []) leaf,
        )
        refl

  abbrev spaces : Spaces
  spaces = record {
    top_space = some top;
    leaf_space = some (join slash (top ∷ mid ∷ leaf ∷ []));
    mid_space = some (join slash (top ∷ mid ∷ []));
  }

  levels-sub_topic :
      levels (sub_topic_3 spaces) ≡ top ∷ mid ∷ codes "+" ∷ codes "secure" ∷ codes "topic" ∷ []
  unfolding sub_topic_3 split
  levels-sub_topic = rw (split-append, levels-join top (mid ∷ []) (plain.0, (plain.1.0, tt))) refl

  levels-pub_topic :
      levels (pub_topic_1 spaces) ≡ top ∷ mid ∷ leaf ∷ codes "secure" ∷ codes "topic" ∷ []
  unfolding pub_topic_1 split
  levels-pub_topic = rw (split-append, levels-join top (mid ∷ leaf ∷ []) plain) refl

-- The last three hashes of the client's chain are `top`, `mid` and `leaf`, all hashes are plain (not
-- empty, no wildcard, no separator), and the broker has verified a signature with the key of `leaf`. Then
-- the client reads from its ACL the spaces top, top/mid and top/mid/leaf, and the ACL allows the
-- subscription and the publication that the client makes in them.
pub own_topics :
    (hashes : List Text) (verified : TextSet) (top mid leaf : Text)
    → All IsPlain hashes
    → last_3 hashes ≡ top ∷ mid ∷ leaf ∷ []
    → TextSet.has verified leaf ≡ true
    → let acl = get_acl_config (some hashes) (some verified) in
      let own = parse_space_info (some acl) in
      (own ≡ record {
        top_space = some top;
        leaf_space = some (join slash (top ∷ mid ∷ leaf ∷ []));
        mid_space = some (join slash (top ∷ mid ∷ []));
      })
      × (may_access is_readable acl (sub_topic_3 own) ≡ true)
      × (may_access is_writable acl (pub_topic_1 own) ≡ true)
unfolding last_3
own_topics hashes verified top mid leaf plain e signed =
    let three = subst (All IsPlain) e (AllPlain-drop (length hashes - 3) hashes plain) in
    let own : parse_space_info (some (get_acl_config (some hashes) (some verified)))
        ≡ spaces verified top mid leaf three =
      unfold get_acl_config in rw e (spaces_of_three verified top mid leaf three) in
    (
      own,
      rw own (
          (may_subscribe hashes verified (sub_topic_3 (spaces verified top mid leaf three)) plain
              top (mid ∷ leaf ∷ []) e).1
            (rw (levels-sub_topic verified top mid leaf three) (refl, tt))),
      rw own (
          (may_publish hashes verified (pub_topic_1 (spaces verified top mid leaf three)) plain).1 (
            rw (e, levels-pub_topic verified top mid leaf three)
              (inr (inr (inl (signed, (refl, (refl, (refl, tt))))))))),
    )
