-- ===== src/Topic.antt =====
-- Topic levels and `matchTopic` of Nodejs_Broker/client_session.mjs. The loop runs over the levels of
-- the ACL pattern by index; an index past the topic's levels gives `undefined`, as in the source.
pub mod Relation
pub mod Path
use otmc_broker.Prelude.{
  ℕ, zero, suc, Text, codes, text_eq, text_eq_iff, text_eq_refl, split, Bool, true, false, not,
  List, [], ◌∷◌, Option, none, some, ◌≡◌, refl, arith, length, get_elem?, ◌==◌, ◌||◌, ◌&&◌,
  if◌then◌else◌,
}

abbrev pub slash : ℕ
slash = b'/'

abbrev pub multi_wildcard : Text
multi_wildcard = codes "#"

abbrev pub single_wildcard : Text
single_wildcard = codes "+"

abbrev pub levels : Text → List Text
levels = split slash

-- `topicLevels[i] === level`: `undefined` equals no string.
abbrev pub is_level : Option Text → Text → Bool
is_level none level = false
is_level (some l) level = text_eq l level

-- The loop from index i on, over the pattern levels that are left. `none` means that it ended
-- without a `return`.
unfoldable pub match_loop : List Text → ℕ → List Text → Option Bool
match_loop topic_levels i [] = none
match_loop topic_levels i (level ∷ rest) =
    let next = match_loop topic_levels (suc i) rest in
    if text_eq level multi_wildcard
    then some true
    else if text_eq level single_wildcard
    then next
    else if not (is_level (get_elem? topic_levels i) level)
    then some false
    else next

abbrev after_loop : Option Bool → Bool → Bool
after_loop none same_length = same_length
after_loop (some answer) same_length = answer

unfoldable pub match_levels : List Text → List Text → Bool
unfolding match_loop
match_levels topic_levels acl_levels =
    after_loop (match_loop topic_levels 0 acl_levels) (length topic_levels == length acl_levels)

unfoldable pub match_topic : Text → Text → Bool
match_topic topic acl_topic = match_levels (levels topic) (levels acl_topic)

match_loop-cons :
    (l : Text) (t : List Text) (i : ℕ) (p : List Text)
    → match_loop (l ∷ t) (suc i) p ≡ match_loop t i p
unfolding match_loop
match_loop-cons l t i [] = refl
match_loop-cons l t i (m ∷ p) = ground (arith, match_loop-cons l t (suc i) p)

match_loop-nil : (i : ℕ) (p : List Text) → match_loop [] (suc i) p ≡ match_loop [] i p
unfolding match_loop
match_loop-nil i [] = refl
match_loop-nil i (m ∷ p) = ground (arith, match_loop-nil (suc i) p)

-- Does a multi-level wildcard follow, with single-level wildcards at most before it?
unfoldable pub reaches_multi : List Text → Bool
reaches_multi [] = false
reaches_multi (m ∷ p) = text_eq m multi_wildcard || (text_eq m single_wildcard && reaches_multi p)

-- The loop, a level of both at a time.
pub match_levels-cons :
    (l : Text) (t : List Text) (m : Text) (p : List Text)
    → match_levels (l ∷ t) (m ∷ p) ≡ (
        if text_eq m multi_wildcard
        then true
        else if text_eq m single_wildcard || text_eq l m
        then match_levels t p
        else false)
unfolding match_levels
match_levels-cons l t m p = ground (arith, match_loop-cons l t 0 p)

pub match_levels-nil : (p : List Text) (m : Text) → match_levels [] (m ∷ p) ≡ reaches_multi (m ∷ p)
unfolding match_levels reaches_multi
match_levels-nil [] m = ground arith
match_levels-nil (n ∷ p) m = ground (arith, match_loop-nil 0 (n ∷ p), match_levels-nil p n)
