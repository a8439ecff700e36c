-- ===== src/Session/Subscribe/Grants.antt =====
-- What `handleSubscribe` grants.
use otmc_broker.Prelude.{
  ℕ, Text, text_eq, text_eq_iff, Bool-cases, true, List, [], ◌∷◌, ◌++◌, map, some, ◌≡◌, ◌⊎◌, inl,
  inr, arith, sym, subst, ◌∙◌, append_assoc, append-nil, Any, ◌&&◌, if◌then◌else◌,
}
use otmc_broker.Result.{ok, err, type_error}
use otmc_broker.Acl.{AclConfig, get_acl}
use otmc_broker.Topics.{Subscriptions, add_subscription}
use otmc_broker.Topics.Members.{subscribed, subscribed-add_subscription}
use otmc_broker.Packet.{Reply, Subscription, granted_not_authorized}
use otmc_broker.World.{World, write, client_id, has_acl}
use otmc_broker.Session.Access.{is_readable, may_access}
use otmc_broker.Session.Subscribe.{
  acl_of, acl_of-some, NoAcl, acl_of_throws, subscribe_one, subscribe_all, handle_subscribe,
}

-- The return code, and the subscriptions afterwards.
abbrev pub code_for : AclConfig → Subscription → ℕ
code_for acl sub = if may_access is_readable acl sub.topic then sub.qos else granted_not_authorized

abbrev pub with_one : AclConfig → Text → Subscriptions → Subscription → Subscriptions
with_one acl id subs sub =
    if may_access is_readable acl sub.topic then add_subscription subs sub.topic id else subs

abbrev pub with_all : AclConfig → Text → Subscriptions → List Subscription → Subscriptions
with_all acl id subs [] = subs
with_all acl id subs (sub ∷ rest) = with_all acl id (with_one acl id subs sub) rest

module _ (socket : ℕ) (acl : AclConfig) where
  subscribe_one_lem :
      (w : World) (sub : Subscription)
      → acl_of socket w ≡ (ok acl, w)
      → subscribe_one socket sub w ≡ (
        ok (code_for acl sub),
        record w { subscriptions = with_one acl (client_id w socket) w.subscriptions sub },
      )
  unfolding subscribe_one
  subscribe_one_lem w sub e = rw e (elim (Bool-cases (may_access is_readable acl sub.topic)) [
    | inl allowed ↦ rw allowed
    | inr denied ↦ rw denied
  ])

  subscribe_all_lem :
      (w : World) (subs : List Subscription) (granted : List ℕ)
      → has_acl w socket ≡ true
      → get_acl w.acls (client_id w socket) ≡ some acl
      → subscribe_all socket subs granted w ≡ (
        ok (granted ++ map (code_for acl) subs),
        record w { subscriptions = with_all acl (client_id w socket) w.subscriptions subs },
      )
  unfolding subscribe_all
  subscribe_all_lem w [] granted h e = λ i. (ok (sym (append-nil granted) i), w)
  subscribe_all_lem w (sub ∷ subs) granted h e =
      rw (subscribe_one_lem w sub (acl_of-some socket w acl h e)) (
        subscribe_all_lem
          (record w { subscriptions = with_one acl (client_id w socket) w.subscriptions sub }) subs
          (granted ++ code_for acl sub ∷ []) h e
        ∙ (λ i. (
          ok (append_assoc granted (code_for acl sub ∷ []) (map (code_for acl) subs) i),
          record w {
            subscriptions =
                with_all acl (client_id w socket)
                  (with_one acl (client_id w socket) w.subscriptions sub) subs;
          },
        )))

  -- For a socket with an ACL: the SUBACK has a code for each subscription, in order: the requested quality of service if the ACL
  -- lets the client read the filter, and "not authorized" if not; the client is entered for the filters
  -- of the first kind, and for no others.
  pub handle_subscribe_lem :
      (w : World) (message_id : ℕ) (subs : List Subscription)
      → has_acl w socket ≡ true
      → get_acl w.acls (client_id w socket) ≡ some acl
      → handle_subscribe socket message_id subs w ≡ (
        ok tt,
        record w {
          subscriptions = with_all acl (client_id w socket) w.subscriptions subs;
          output =
              w.output ++ write socket (Reply.suback message_id (map (code_for acl) subs)) ∷ [];
        },
      )
  unfolding handle_subscribe
  handle_subscribe_lem w message_id subs h e = rw (subscribe_all_lem w subs [] h e)

-- Without an ACL the first subscription makes the handler throw, and nothing changes.
pub handle_subscribe_throws :
    (socket : ℕ) (w : World) (message_id : ℕ) (sub : Subscription) (subs : List Subscription)
    → NoAcl w socket
    → handle_subscribe socket message_id (sub ∷ subs) w ≡ (err type_error, w)
unfolding handle_subscribe subscribe_all subscribe_one
handle_subscribe_throws socket w message_id sub subs h = rw (acl_of_throws socket w h)

-- A subscription after the packet was there before, or it is the client's own with a filter of the
-- packet that the ACL lets it read.
pub subscribed-with_all :
    (acl : AclConfig) (id : Text) (before : Subscriptions) (subs : List Subscription) (f j : Text)
    → subscribed (with_all acl id before subs) f j ≡ true
    → (subscribed before f j ≡ true)
      ⊎ ((j ≡ id) × Any (λ s. (s.topic ≡ f) × (may_access is_readable acl f ≡ true)) subs)
subscribed-with_all acl id before [] f j h = inl h
subscribed-with_all acl id before (sub ∷ subs) f j h =
    split (subscribed-with_all acl id (with_one acl id before sub) subs f j h)
  where
    split :
        (subscribed (with_one acl id before sub) f j ≡ true)
          ⊎ ((j ≡ id) × Any (λ s. (s.topic ≡ f) × (may_access is_readable acl f ≡ true)) subs)
        → (subscribed before f j ≡ true)
          ⊎ ((j ≡ id)
              × Any (λ s. (s.topic ≡ f) × (may_access is_readable acl f ≡ true)) (sub ∷ subs))
    split (inr (own, later)) = inr (own, inr later)
    split (inl now) = elim (Bool-cases (text_eq sub.topic f && text_eq id j)) [
      | inl new ↦
          let same_topic : sub.topic ≡ f = ground (arith, text_eq_iff sub.topic f) in
          let same_id : id ≡ j = ground (arith, text_eq_iff id j) in
          elim (Bool-cases (may_access is_readable acl sub.topic)) [
            | inl allowed ↦ inr (
              sym same_id,
              inl (same_topic, subst (λ t. may_access is_readable acl t ≡ true) same_topic allowed),
            )
            | inr denied ↦ inl (ground arith)
          ]
      | inr old ↦ inl (ground (arith, subscribed-add_subscription before sub.topic id f j))
    ]
