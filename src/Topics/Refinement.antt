-- ===== src/Topics/Refinement.antt =====
-- The map of Nodejs_Broker/client_topics.mjs implements a relation between filters and clients.
use otmc_broker.Prelude.{
  Text, text_eq, Bool, false, ◌&&◌, ◌||◌, List, [], ◌∷◌, ◌≡◌, ◌∙◌, refl, ap, fun_ext, if◌then◌else◌,
}
use otmc_broker.Topics.{Subscriptions, add_subscription, remove_subscription, remove_client}
use otmc_broker.Topics.Members.{
  IsValid, subscribed, subscribed-add_subscription, subscribed-remove_subscription,
  subscribed-remove_client, add_subscription-IsValid, remove_subscription-IsValid,
  remove_client-IsValid,
}

-- The operations that change the map.
pub data Operation : Type 0 where
  adds : (topic client_id : Text) → Operation
  removes : (topic client_id : Text) → Operation
  leaves : (client_id : Text) → Operation

unfoldable pub perform : Subscriptions → Operation → Subscriptions
perform subs (adds topic client_id) = add_subscription subs topic client_id
perform subs (removes topic client_id) = remove_subscription subs topic client_id
perform subs (leaves client_id) = remove_client subs client_id

unfoldable pub perform_all : Subscriptions → List Operation → Subscriptions
unfolding perform
perform_all subs [] = subs
perform_all subs (operation ∷ operations) = perform_all (perform subs operation) operations

-- Which client is subscribed with which filter.
abbrev pub Relation : Type 0
Relation = Text → Text → Bool

-- The operations on the relation. Removing a filter ends it for every client.
abbrev pub relate : Relation → Operation → Relation
relate R (adds topic client_id) t j = (text_eq topic t && text_eq client_id j) || R t j
relate R (removes topic client_id) t j = if text_eq topic t then false else R t j
relate R (leaves client_id) t j = if text_eq client_id j then false else R t j

abbrev pub relate_all : Relation → List Operation → Relation
relate_all R [] = R
relate_all R (operation ∷ operations) = relate_all (relate R operation) operations

perform-IsValid :
    (subs : Subscriptions) (operation : Operation) → IsValid subs → IsValid (perform subs operation)
unfolding perform
perform-IsValid subs (adds topic client_id) v = add_subscription-IsValid subs topic client_id v
perform-IsValid subs (removes topic client_id) v =
    remove_subscription-IsValid subs topic client_id v
perform-IsValid subs (leaves client_id) v = remove_client-IsValid subs client_id v

subscribed-perform :
    (subs : Subscriptions) (operation : Operation)
    → IsValid subs
    → subscribed (perform subs operation) ≡ relate (subscribed subs) operation
unfolding perform
subscribed-perform subs (adds topic client_id) v =
    fun_ext λ t. fun_ext λ j. subscribed-add_subscription subs topic client_id t j
subscribed-perform subs (removes topic client_id) v =
    fun_ext λ t. fun_ext λ j. subscribed-remove_subscription subs topic client_id t j
subscribed-perform subs (leaves client_id) v =
    fun_ext λ t. fun_ext λ j. subscribed-remove_client subs client_id t j v.distinct

-- For any sequence of additions, removals and departures, the map that they leave of a well-formed one
-- is well formed and stands for the relation that they leave of the relation it stood for. Removing a
-- filter ends the subscriptions of every client with it, whoever is named.
pub perform_all-refines :
    (subs : Subscriptions) (operations : List Operation)
    → IsValid subs
    → (subscribed (perform_all subs operations) ≡ relate_all (subscribed subs) operations)
      × IsValid (perform_all subs operations)
unfolding perform_all
perform_all-refines subs [] v = (refl, v)
perform_all-refines subs (operation ∷ operations) v =
    let (same, valid) =
      perform_all-refines (perform subs operation) operations (perform-IsValid subs operation v) in
    (same ∙ ap (λ R. relate_all R operations) (subscribed-perform subs operation v), valid)
