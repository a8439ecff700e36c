-- ===== src/Topics/Recipients.antt =====
-- To whom a message on a topic goes, and how the loop over the filters reads a pattern.
use otmc_broker.Prelude.{
  Text, text_eq, text_eq_iff, text_eq_refl, Bool-cases, true, false, ◌&&◌, ◌||◌, List, [], ◌∷◌,
  ◌++◌, Option-cases, inl, inr, ◌≡◌, ◌⊎◌, ◌↔◌, refl, arith, All, suc, ℕ, if◌then◌else◌,
}
use otmc_broker.Map
use otmc_broker.Map.{Map}
use otmc_broker.Map.Keys.{IsDistinct}
use otmc_broker.TextSet
use otmc_broker.TextSet.{TextSet}
use otmc_broker.Topic.{levels, multi_wildcard, single_wildcard}
use otmc_broker.Topic.Path.{IsPlain, IsUnder}
use otmc_broker.Topics.{
  Subscriptions, pattern_loop, pattern_levels, math_pattern_subscriptions, get_subscriptions,
}
use otmc_broker.Topics.Members.{subscribed}

pattern_loop-cons :
    (l : Text) (t : List Text) (i : ℕ) (p : List Text)
    → pattern_loop (l ∷ t) (suc i) p ≡ pattern_loop t i p
unfolding pattern_loop
pattern_loop-cons l t i [] = refl
pattern_loop-cons l t i (m ∷ p) = ground (arith, pattern_loop-cons l t (suc i) p)

pattern_loop-nil : (i : ℕ) (p : List Text) → pattern_loop [] (suc i) p ≡ pattern_loop [] i p
unfolding pattern_loop
pattern_loop-nil i [] = refl
pattern_loop-nil i (m ∷ p) = ground (arith, pattern_loop-nil (suc i) p)

pattern_levels-cons :
    (l : Text) (t : List Text) (m : Text) (p : List Text)
    → pattern_levels (l ∷ t) (m ∷ p) ≡ (
        if text_eq m multi_wildcard
        then true
        else if text_eq m single_wildcard || text_eq l m
        then pattern_levels t p
        else false)
unfolding pattern_levels
pattern_levels-cons l t m p = ground (arith, pattern_loop-cons l t 0 p)

pattern_levels-nil :
    (m : Text) (p : List Text)
    → pattern_levels [] (m ∷ p) ≡ (
        if text_eq m multi_wildcard
        then true
        else if text_eq m single_wildcard
        then pattern_levels [] p
        else false)
unfolding pattern_levels
pattern_levels-nil m p = ground (arith, pattern_loop-nil 0 p)

pattern_levels_end : (t : List Text) → pattern_levels t [] ≡ true
unfolding pattern_levels
pattern_levels_end t = refl

-- A filter of plain levels, with no wildcard in it, is read as a prefix: the loop accepts every
-- topic below the filter too.
pub pattern_levels-plain :
    (path t : List Text) → All IsPlain path → (pattern_levels t path ≡ true) ↔ IsUnder path t
pattern_levels-plain [] t h = (λ _. tt, λ _. pattern_levels_end t)
pattern_levels-plain (m ∷ path) [] h =
    ground (
      arith,
      pattern_levels-nil m path,
      text_eq_iff m multi_wildcard,
      text_eq_iff m single_wildcard,
    )
pattern_levels-plain (m ∷ path) (l ∷ t) h = ground (
  arith,
  pattern_levels-cons l t m path,
  pattern_levels-plain path t h.1,
  text_eq_iff m multi_wildcard,
  text_eq_iff m single_wildcard,
  text_eq_iff l m,
)

-- A filter below a plain path accepts only topics below that path.
pub pattern_levels-IsUnder :
    (path f t : List Text)
    → All IsPlain path
    → IsUnder path f
    → pattern_levels t f ≡ true
    → IsUnder path t
pattern_levels-IsUnder [] f t h u a = tt
pattern_levels-IsUnder (g ∷ path) [] t h u a = absurd u
pattern_levels-IsUnder (g ∷ path) (m ∷ f) [] h u a =
    ground
      (arith, pattern_levels-nil m f, text_eq_iff m multi_wildcard, text_eq_iff m single_wildcard)
pattern_levels-IsUnder (g ∷ path) (m ∷ f) (l ∷ t) h u a = ground (
  arith,
  pattern_levels-cons l t m f,
  pattern_levels-IsUnder path f t h.1 u.1,
  text_eq_iff m multi_wildcard,
  text_eq_iff m single_wildcard,
  text_eq_iff l m,
)

has-append :
    (xs ys : TextSet) (j : Text) → TextSet.has (xs ++ ys) j ≡ (TextSet.has xs j || TextSet.has ys j)
unfolding TextSet.has
has-append [] ys j = refl
has-append (x ∷ xs) ys j = ground (arith, has-append xs ys j)

-- A filter that accepts the topic and with which the client is subscribed.
abbrev pub Reaches : Subscriptions → Text → Text → Text → Type 0
Reaches subs topic j f =
    (subscribed subs f j ≡ true) × (pattern_levels (levels topic) (levels f) ≡ true)

subscribed-here :
    (u : Text) (clients : TextSet) (subs : Subscriptions) (j : Text)
    → subscribed ((u, clients) ∷ subs) u j ≡ TextSet.has clients j
unfolding subscribed Map.get
subscribed-here u clients subs j = ground (arith, text_eq_refl u)

subscribed-later :
    (u : Text) (clients : TextSet) (subs : Subscriptions) (f j : Text)
    → Map.has subs u ≡ false
    → subscribed subs f j ≡ true
    → subscribed ((u, clients) ∷ subs) f j ≡ true
unfolding subscribed Map.get Map.has
subscribed-later u clients subs f j h s = ground (arith, text_eq_iff u f)

pattern_sound :
    (subs : Subscriptions) (topic j : Text)
    → IsDistinct subs
    → TextSet.has (math_pattern_subscriptions subs topic) j ≡ true
    → (f : Text) × Reaches subs topic j f
unfolding math_pattern_subscriptions TextSet.has
pattern_sound [] topic j d h = cc
pattern_sound ((u, clients) ∷ subs) topic j d h =
    elim (Bool-cases (pattern_levels (levels topic) (levels u) && TextSet.has clients j)) [
      | inl here ↦ (u, (rw subscribed-here (ground arith), ground arith))
      | inr later ↦
          let (f, r) =
            pattern_sound subs topic j d.1
              (ground (arith, has-append clients (math_pattern_subscriptions subs topic) j)) in
          (f, (subscribed-later u clients subs f j d.0 r.0, r.1))
    ]

pattern_complete :
    (subs : Subscriptions) (topic j f : Text)
    → Reaches subs topic j f
    → TextSet.has (math_pattern_subscriptions subs topic) j ≡ true
unfolding math_pattern_subscriptions TextSet.has subscribed Map.get
pattern_complete [] topic j f r = ground arith
pattern_complete ((u, clients) ∷ subs) topic j f r = ground (
  arith,
  has-append clients (math_pattern_subscriptions subs topic) j,
  pattern_complete subs topic j f,
  text_eq_iff u f,
)

-- For distinct filters, `getSubscriptions` returns the subscribers of the very topic if there is an
-- entry for it, and otherwise exactly the clients with a filter that the loop accepts.
pub get_subscriptions_lem :
    (subs : Subscriptions) (topic j : Text)
    → IsDistinct subs
    → (Map.has subs topic ≡ true
        → TextSet.has (get_subscriptions subs topic) j ≡ subscribed subs topic j)
      × (Map.has subs topic ≡ false
          → (TextSet.has (get_subscriptions subs topic) j ≡ true)
            ↔ ((f : Text) × Reaches subs topic j f))
unfolding get_subscriptions subscribed Map.has
get_subscriptions_lem subs topic j d = elim (Option-cases (Map.get subs topic)) [
  | inl e ↦ (
    λ h. ground arith,
    λ _.
        rw (e, get_subscriptions)
          ((pattern_sound subs topic j d, λ r. pattern_complete subs topic j r.0 r.1)),
  )
  | inr (clients, e) ↦ (λ _. ground arith, λ h. absurd (ground arith))
]

-- For distinct filters, every client that `getSubscriptions` lists is subscribed with a filter that is
-- the topic or that the loop accepts for it.
pub get_subscriptions_sound :
    (subs : Subscriptions) (topic j : Text)
    → IsDistinct subs
    → TextSet.has (get_subscriptions subs topic) j ≡ true
    → (f : Text) × (subscribed subs f j ≡ true)
      × ((f ≡ topic) ⊎ (pattern_levels (levels topic) (levels f) ≡ true))
get_subscriptions_sound subs topic j d h = elim (Bool-cases (Map.has subs topic)) [
  | inl e ↦ (topic, cc ((get_subscriptions_lem subs topic j d).0 e), inl refl)
  | inr e ↦ let (f, r) = ((get_subscriptions_lem subs topic j d).1 e).0 h in (f, r.0, inr r.1)
]
