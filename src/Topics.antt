-- ===== src/Topics.antt =====
-- `ClientTopic` of Nodejs_Broker/client_topics.mjs: the module's `subscriptions` map, one for the whole
-- process, from the text of a topic filter to the clients that subscribed with it.
pub mod Members
pub mod Recipients
pub mod Refinement
use otmc_broker.Prelude.{
  ℕ, zero, suc, Text, text_eq, Bool, true, false, not, List, [], ◌∷◌, ◌++◌, Option, none, some,
  get_elem?, if◌then◌else◌,
}
use otmc_broker.Map
use otmc_broker.Map.{Map}
use otmc_broker.TextSet
use otmc_broker.TextSet.{TextSet}
use otmc_broker.Topic.{levels, multi_wildcard, single_wildcard, is_level}

abbrev pub Subscriptions : Type 0
Subscriptions = Map TextSet

unfoldable pub add_subscription : Subscriptions → Text → Text → Subscriptions
add_subscription subs topic client_id = elim (Map.get subs topic) [
  | some clients ↦ Map.set subs topic (TextSet.add clients client_id)
  | none ↦ Map.set subs topic (client_id ∷ [])
]

-- The client is not read: the filter goes for everybody.
unfoldable pub remove_subscription : Subscriptions → Text → Text → Subscriptions
remove_subscription subs topic client_id = Map.delete subs topic

-- The loop over the levels of a subscribed filter, from index i on.
unfoldable pub pattern_loop : List Text → ℕ → List Text → Bool
pattern_loop topic_levels i [] = true
pattern_loop topic_levels i (level ∷ rest) =
    let next = pattern_loop topic_levels (suc i) rest in
    if text_eq level multi_wildcard
    then true
    else if text_eq level single_wildcard
    then next
    else if not (is_level (get_elem? topic_levels i) level)
    then false
    else next

unfoldable pub pattern_levels : List Text → List Text → Bool
unfolding pattern_loop
pattern_levels topic_levels sub_levels = pattern_loop topic_levels 0 sub_levels

-- The loop over all filters, with `result.push(...clients)`.
unfoldable pub math_pattern_subscriptions : Subscriptions → Text → List Text
math_pattern_subscriptions [] topic = []
math_pattern_subscriptions ((subscribed_topic, clients) ∷ subs) topic =
    let rest = math_pattern_subscriptions subs topic in
    if pattern_levels (levels topic) (levels subscribed_topic) then clients ++ rest else rest

unfoldable pub get_subscriptions : Subscriptions → Text → List Text
get_subscriptions subs topic = elim (Map.get subs topic) [
  | some target_subs ↦ target_subs
  | none ↦ math_pattern_subscriptions subs topic
]

abbrev keep_unless_empty : Text → TextSet → Subscriptions → Subscriptions
keep_unless_empty topic [] rest = rest
keep_unless_empty topic (c ∷ clients) rest = (topic, c ∷ clients) ∷ rest

-- The loop deletes the client from each set, and the entry of a set that is empty then.
unfoldable pub remove_client : Subscriptions → Text → Subscriptions
remove_client [] client_id = []
remove_client ((topic, clients) ∷ subs) client_id =
    keep_unless_empty topic (TextSet.delete clients client_id) (remove_client subs client_id)
