-- ===== src/Topic/Path.antt =====
-- A pattern `<h1>/…/<hn>/#` of plain levels matches the topics at or below the path h1/…/hn, and no
-- others.
use otmc_broker.Prelude.{
  Text, codes, text_eq_iff, text_eq_refl, split, join, split-append, split_lem, Avoids, true, List,
  [], ◌∷◌, ◌++◌, ◌≡◌, ◌≢◌, ◌↔◌, arith, All, ap,
}
use otmc_broker.Topic.{
  slash, multi_wildcard, single_wildcard, levels, match_levels, match_topic, match_levels-cons,
  match_levels-nil, reaches_multi,
}

-- A level that is no wildcard, has no separator and is not empty.
pub record IsPlain (level : Text) : Type 0 where
  pub not_empty : level ≢ []
  pub not_multi : level ≢ multi_wildcard
  pub not_single : level ≢ single_wildcard
  pub no_slash : Avoids slash level

-- The topic's levels begin with the path.
abbrev pub IsUnder : List Text → List Text → Type 0
IsUnder [] t = Unit
IsUnder (h ∷ path) [] = ⊥
IsUnder (h ∷ path) (l ∷ t) = (l ≡ h) × IsUnder path t

abbrev pub below : List Text → List Text
below path = path ++ multi_wildcard ∷ []

pub match_levels-below :
    (path t : List Text) → All IsPlain path → (match_levels t (below path) ≡ true) ↔ IsUnder path t
unfolding reaches_multi
match_levels-below [] [] h =
    ground (arith, text_eq_refl multi_wildcard, match_levels-nil [] multi_wildcard)
match_levels-below [] (l ∷ t) h =
    ground (arith, text_eq_refl multi_wildcard, match_levels-cons l t multi_wildcard [])
match_levels-below (m ∷ path) [] h = ground (
  arith,
  match_levels-nil (below path) m,
  text_eq_iff m multi_wildcard,
  text_eq_iff m single_wildcard,
)
match_levels-below (m ∷ path) (l ∷ t) h = ground (
  arith,
  match_levels-cons l t m (below path),
  match_levels-below path t h.1,
  text_eq_iff m multi_wildcard,
  text_eq_iff m single_wildcard,
  text_eq_iff l m,
)

pub levels-join :
    (h : Text) (path : List Text)
    → All IsPlain (h ∷ path)
    → levels (join slash (h ∷ path)) ≡ h ∷ path
unfolding join
levels-join h [] p = split_lem slash h p.0.no_slash
levels-join h (g ∷ path) p =
    rw (split-append, split_lem slash h p.0.no_slash, levels-join g path p.1)

-- The pattern text that the ACL holds for a path: its levels joined, and `/#`.
abbrev pub pattern : List Text → Text
pattern path = join slash path ++ codes "/#"

pub levels-pattern :
    (h : Text) (path : List Text)
    → All IsPlain (h ∷ path)
    → levels (pattern (h ∷ path)) ≡ below (h ∷ path)
unfolding split
levels-pattern h path p =
    rw (split-append) (ap (λ ls. ls ++ multi_wildcard ∷ []) (levels-join h path p))

-- For a path of plain levels, `matchTopic` with the pattern `path/#` accepts exactly the topics
-- whose levels begin with the path.
pub match_topic-below :
    (h : Text) (path : List Text) (topic : Text)
    → All IsPlain (h ∷ path)
    → (match_topic topic (pattern (h ∷ path)) ≡ true) ↔ IsUnder (h ∷ path) (levels topic)
unfolding match_topic
match_topic-below h path topic p =
    rw (levels-pattern h path p) (match_levels-below (h ∷ path) (levels topic) p)
