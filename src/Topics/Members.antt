-- ===== src/Topics/Members.antt =====
-- Who is subscribed with which filter, after each operation.
use otmc_broker.Prelude.{
  Text, text_eq, text_eq_iff, Bool, Bool-cases, true, false, ◌&&◌, ◌||◌, [], ◌∷◌, Option-cases, inl,
  inr, Option, none, some, ◌≡◌, ◌≢◌, refl, arith, if◌then◌else◌,
}
use otmc_broker.Map
use otmc_broker.Map.{Map}
use otmc_broker.Map.Keys.{IsDistinct, set-IsDistinct, delete-IsDistinct}
use otmc_broker.TextSet
use otmc_broker.TextSet.{TextSet}
use otmc_broker.Topics.{
  Subscriptions, add_subscription, remove_subscription, remove_client, keep_unless_empty,
}

abbrev pub in_set : Option TextSet → Text → Bool
in_set none client_id = false
in_set (some clients) client_id = TextSet.has clients client_id

-- Is the client subscribed with exactly this filter?
unfoldable pub subscribed : Subscriptions → Text → Text → Bool
subscribed subs topic client_id = in_set (Map.get subs topic) client_id

-- Each filter has one entry, and none has an empty set.
abbrev pub NoEmptySet : Subscriptions → Type 0
NoEmptySet [] = Unit
NoEmptySet ((t, clients) ∷ subs) = (clients ≢ []) × NoEmptySet subs

pub record IsValid (subs : Subscriptions) : Type 0 where
  pub distinct : IsDistinct subs
  pub no_empty_set : NoEmptySet subs

-- Subscribing adds the one client to the one filter, and nothing else.
pub subscribed-add_subscription :
    (subs : Subscriptions) (topic client_id t j : Text)
    → subscribed (add_subscription subs topic client_id) t j
      ≡ ((text_eq topic t && text_eq client_id j) || subscribed subs t j)
unfolding subscribed add_subscription TextSet.has
subscribed-add_subscription subs topic client_id t j = elim (Option-cases (Map.get subs topic)) [
  | inl e ↦ ground (
    arith,
    e,
    text_eq_iff topic t,
    text_eq_iff client_id j,
    Map.get-set subs topic (client_id ∷ []) t,
  )
  | inr (clients, e) ↦ ground (
    arith,
    e,
    text_eq_iff topic t,
    text_eq_iff client_id j,
    Map.get-set subs topic (TextSet.add clients client_id) t,
    TextSet.has-add clients client_id j,
  )
]

module _ (u : Text) (rest : Subscriptions) (t : Text) where
  in_set-keep :
      (clients : TextSet) (j : Text)
      → text_eq u t ≡ true
      → Map.get rest t ≡ none
      → in_set (Map.get (keep_unless_empty u clients rest) t) j ≡ TextSet.has clients j
  unfolding Map.get TextSet.has
  in_set-keep [] j same h = ground arith
  in_set-keep (c ∷ clients) j same h = ground arith

  get-keep_ne :
      (clients : TextSet)
      → text_eq u t ≡ false
      → Map.get (keep_unless_empty u clients rest) t ≡ Map.get rest t
  unfolding Map.get
  get-keep_ne [] other = refl
  get-keep_ne (c ∷ clients) other = ground arith

get-remove_client-none :
    (subs : Subscriptions) (client_id t : Text)
    → Map.get subs t ≡ none
    → Map.get (remove_client subs client_id) t ≡ none
unfolding remove_client Map.get
get-remove_client-none [] client_id t h = refl
get-remove_client-none ((u, clients) ∷ subs) client_id t h = ground (
  arith,
  get-keep_ne u (remove_client subs client_id) t (TextSet.delete clients client_id),
  get-remove_client-none subs client_id t,
)

-- For distinct filters, a client that is removed is subscribed with no filter any more, and the others
-- are subscribed as before.
pub subscribed-remove_client :
    (subs : Subscriptions) (client_id t j : Text)
    → IsDistinct subs
    → subscribed (remove_client subs client_id) t j
      ≡ (if text_eq client_id j then false else subscribed subs t j)
unfolding subscribed remove_client Map.get Map.has TextSet.has
subscribed-remove_client [] client_id t j d = ground arith
subscribed-remove_client ((u, clients) ∷ subs) client_id t j d = elim (Bool-cases (text_eq u t)) [
  | inl same ↦
      let gone : Map.get subs t ≡ none = ground (arith, text_eq_iff u t) in
      ground (
        arith,
        TextSet.has-delete clients client_id j,
        in_set-keep u (remove_client subs client_id) t (TextSet.delete clients client_id) j same
            (get-remove_client-none subs client_id t gone),
      )
  | inr other ↦ ground (
    arith,
    subscribed-remove_client subs client_id t j d.1,
    get-keep_ne u (remove_client subs client_id) t (TextSet.delete clients client_id) other,
  )
]

-- `removeSubscription` ends the subscriptions of every client with the filter, whoever is named, and no
-- subscription with another filter.
pub subscribed-remove_subscription :
    (subs : Subscriptions) (topic client_id t j : Text)
    → subscribed (remove_subscription subs topic client_id) t j
      ≡ (if text_eq topic t then false else subscribed subs t j)
unfolding subscribed remove_subscription
subscribed-remove_subscription subs topic client_id t j =
    ground (arith, Map.get-delete subs topic t)

NoEmptySet-set :
    (subs : Subscriptions) (topic : Text) (clients : TextSet)
    → clients ≢ []
    → NoEmptySet subs
    → NoEmptySet (Map.set subs topic clients)
unfolding Map.set
NoEmptySet-set [] topic clients n h = (n, tt)
NoEmptySet-set ((u, c) ∷ subs) topic clients n h =
    ground (arith, NoEmptySet-set subs topic clients n h.1)

NoEmptySet-delete :
    (subs : Subscriptions) (topic : Text) → NoEmptySet subs → NoEmptySet (Map.delete subs topic)
unfolding Map.delete
NoEmptySet-delete [] topic h = tt
NoEmptySet-delete ((u, c) ∷ subs) topic h = ground (arith, NoEmptySet-delete subs topic h.1)

add_not_empty : (clients : TextSet) (c : Text) → TextSet.add clients c ≢ []
unfolding TextSet.add
add_not_empty [] c e = cc
add_not_empty (d ∷ clients) c e = ground arith

pub add_subscription-IsValid :
    (subs : Subscriptions) (topic client_id : Text)
    → IsValid subs
    → IsValid (add_subscription subs topic client_id)
unfolding add_subscription
add_subscription-IsValid subs topic client_id v = elim (Option-cases (Map.get subs topic)) [
  | inl e ↦
      rw (e, add_subscription)
        (record {
          distinct = set-IsDistinct subs topic (client_id ∷ []) v.distinct;
          no_empty_set = NoEmptySet-set subs topic _ (λ x. cc) v.no_empty_set;
        })
  | inr (clients, e) ↦
      rw (e, add_subscription)
        (record {
          distinct = set-IsDistinct subs topic (TextSet.add clients client_id) v.distinct;
          no_empty_set =
              NoEmptySet-set subs topic _ (add_not_empty clients client_id) v.no_empty_set;
        })
]

pub remove_subscription-IsValid :
    (subs : Subscriptions) (topic client_id : Text)
    → IsValid subs
    → IsValid (remove_subscription subs topic client_id)
unfolding remove_subscription
remove_subscription-IsValid subs topic client_id v = record {
  distinct = delete-IsDistinct subs topic v.distinct;
  no_empty_set = NoEmptySet-delete subs topic v.no_empty_set;
}

remove_client-NoEmptySet :
    (subs : Subscriptions) (client_id : Text)
    → NoEmptySet subs
    → NoEmptySet (remove_client subs client_id)
unfolding remove_client
remove_client-NoEmptySet [] client_id h = tt
remove_client-NoEmptySet ((u, c) ∷ subs) client_id h =
    keep_valid (TextSet.delete c client_id) (remove_client-NoEmptySet subs client_id h.1)
  where
    keep_valid :
        (clients : TextSet)
        → NoEmptySet (remove_client subs client_id)
        → NoEmptySet (keep_unless_empty u clients (remove_client subs client_id))
    keep_valid [] r = r
    keep_valid (d ∷ clients) r = (λ x. cc, r)

remove_client-IsDistinct :
    (subs : Subscriptions) (client_id : Text)
    → IsDistinct subs
    → IsDistinct (remove_client subs client_id)
unfolding remove_client Map.has
remove_client-IsDistinct [] client_id d = tt
remove_client-IsDistinct ((u, c) ∷ subs) client_id d =
    keep_distinct (TextSet.delete c client_id)
      (ground (arith, get-remove_client-none subs client_id u))
      (remove_client-IsDistinct subs client_id d.1)
  where
    keep_distinct :
        (clients : TextSet)
        → Map.has (remove_client subs client_id) u ≡ false
        → IsDistinct (remove_client subs client_id)
        → IsDistinct (keep_unless_empty u clients (remove_client subs client_id))
    keep_distinct [] a r = r
    keep_distinct (d ∷ clients) a r = (a, r)

pub remove_client-IsValid :
    (subs : Subscriptions) (client_id : Text)
    → IsValid subs
    → IsValid (remove_client subs client_id)
remove_client-IsValid subs client_id v = record {
  distinct = remove_client-IsDistinct subs client_id v.distinct;
  no_empty_set = remove_client-NoEmptySet subs client_id v.no_empty_set;
}
