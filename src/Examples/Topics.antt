-- ===== src/Examples/Topics.antt =====
-- Subscriptions of alice and bob.
use otmc_broker.Prelude.{
  arith, Text, codes, text_eq, true, false, ◌&&◌, ◌||◌, List, [], ◌∷◌, ◌≡◌, ◌⊎◌, ◌↔◌, inl, inr,
  refl, All, if◌then◌else◌,
}
use otmc_broker.Map
use otmc_broker.Map.Keys.{IsDistinct}
use otmc_broker.TextSet
use otmc_broker.Topic.{levels}
use otmc_broker.Topic.Path.{IsPlain}
use otmc_broker.Topics.Members
use otmc_broker.Topics.Refinement.{
  Operation, adds, removes, leaves, perform_all, relate_all, perform_all-refines,
}
use otmc_broker.Topics.{
  Subscriptions, add_subscription, remove_subscription, remove_client, pattern_levels,
  get_subscriptions,
}
use otmc_broker.Topics.Members.{subscribed}
use otmc_broker.Topics.Recipients.{Reaches, get_subscriptions_lem}
use otmc_broker.Acl.{AclConfig, read}
use otmc_broker.Packet.{Subscription}
use otmc_broker.Session.Access.{may_access}
use otmc_broker.Session.Subscribe.Grants.{with_all}
use otmc_broker.Prelude.{Any}
use otmc_broker.Examples.Setup.{alice, bob}

abbrev subs : Subscriptions
subs = (codes "a/#", alice ∷ []) ∷ (codes "a/b", alice ∷ bob ∷ []) ∷ []

distinct : IsDistinct subs
unfolding Map.has Map.get text_eq
distinct = (refl, (refl, tt))

IsPlain-a : IsPlain (codes "a")
IsPlain-a = record {
  not_empty = λ e. cc;
  not_multi = λ e. cc;
  not_single = λ e. cc;
  no_slash = (λ e. omega (arith, e), tt);
}

get_subscriptions_lem_example :
    (Map.has subs (codes "a/c") ≡ true
      → TextSet.has (get_subscriptions subs (codes "a/c")) alice
        ≡ subscribed subs (codes "a/c") alice)
    × (Map.has subs (codes "a/c") ≡ false
        → (TextSet.has (get_subscriptions subs (codes "a/c")) alice ≡ true)
          ↔ ((f : Text) × Reaches subs (codes "a/c") alice f))
get_subscriptions_lem_example = get_subscriptions_lem subs (codes "a/c") alice distinct

receives : TextSet.has (get_subscriptions subs (codes "a/c")) alice ≡ true
unfolding get_subscriptions TextSet.has Map.get text_eq
    otmc_broker.Topics.math_pattern_subscriptions pattern_levels otmc_broker.Prelude.split
receives = refl

abbrev acl : AclConfig
acl = record { topic = codes "x/#"; action = read } ∷ []

abbrev wanted : List Subscription
wanted = record { topic = codes "x/1"; qos = 1 } ∷ record { topic = codes "y"; qos = 0 } ∷ []

entered : subscribed (with_all acl bob subs wanted) (codes "x/1") bob ≡ true
unfolding subscribed Map.get may_access otmc_broker.Topic.match_topic otmc_broker.Topic.match_levels
    otmc_broker.Prelude.split text_eq add_subscription Map.set TextSet.has
entered = refl

well_formed : Members.IsValid subs
well_formed = record { distinct = distinct; no_empty_set = ((λ e. cc), ((λ e. cc), tt)) }

abbrev operations : List Operation
operations = adds (codes "x/1") bob ∷ removes (codes "a/b") alice ∷ leaves alice ∷ []

perform_all-refines_example :
    (subscribed (perform_all subs operations) ≡ relate_all (subscribed subs) operations)
    × Members.IsValid (perform_all subs operations)
perform_all-refines_example = perform_all-refines subs operations well_formed
