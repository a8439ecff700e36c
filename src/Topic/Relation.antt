-- ===== src/Topic/Relation.antt =====
-- `matchTopic` against an inductive relation on levels.
use otmc_broker.Prelude.{
  Text, text_eq, text_eq_iff, true, false, List, [], ◌∷◌, ◌≡◌, ◌≢◌, refl, ◌↔◌, inl, inr, arith,
  Bool-cases,
}
use otmc_broker.Topic.{
  multi_wildcard, single_wildcard, levels, reaches_multi, match_levels, match_topic,
  match_levels-cons, match_levels-nil,
}

-- Topic levels against pattern levels. The last rule is the code's own: a topic that ends before a
-- run of `+` matches too, if a `#` follows the run.
pub data Matches : List Text → List Text → Type 0 where
  done : Matches [] []
  multi : {t p : List Text} {m : Text} → m ≡ multi_wildcard → Matches t (m ∷ p)
  single :
      {t p : List Text} {l m : Text} → m ≡ single_wildcard → Matches t p → Matches (l ∷ t) (m ∷ p)
  level : {t p : List Text} {l m : Text} → l ≡ m → Matches t p → Matches (l ∷ t) (m ∷ p)
  overrun :
      {p : List Text} {m : Text} → m ≡ single_wildcard → Matches [] p → p ≢ [] → Matches [] (m ∷ p)

Matches→reaches : {p : List Text} (m : Text) → Matches [] (m ∷ p) → reaches_multi (m ∷ p) ≡ true
unfolding reaches_multi
Matches→reaches m (multi e) = ground (arith, text_eq_iff m multi_wildcard)
Matches→reaches m (overrun {p = []} e h ne) = absurd (ne refl)
Matches→reaches m (overrun {p = n ∷ p} e h ne) =
    ground (arith, text_eq_iff m single_wildcard, Matches→reaches n h)

reaches→Matches : (m : Text) (p : List Text) → reaches_multi (m ∷ p) ≡ true → Matches [] (m ∷ p)
unfolding reaches_multi
reaches→Matches m [] h = multi (ground (arith, text_eq_iff m multi_wildcard))
reaches→Matches m (n ∷ p) h = elim (Bool-cases (text_eq m multi_wildcard)) [
  | inl e ↦ multi ((text_eq_iff m multi_wildcard).0 e)
  | inr e ↦
      overrun (ground (arith, text_eq_iff m single_wildcard)) (reaches→Matches n p (ground arith))
        (λ e. cc)
]

no_levels :
    (match_levels [] [] ≡ true) × ((l : Text) (t : List Text) → match_levels (l ∷ t) [] ≡ false)
unfolding match_levels
no_levels = (refl, λ l t. ground arith)

Matches→levels : {t p : List Text} → Matches t p → match_levels t p ≡ true
Matches→levels done = no_levels.0
Matches→levels (multi {t = []} {p = p} {m = m} e) =
    rw (match_levels-nil p m) (Matches→reaches m (multi e))
Matches→levels (multi {t = l ∷ t} {p = p} {m = m} e) =
    ground (arith, match_levels-cons l t m p, text_eq_iff m multi_wildcard)
Matches→levels (single {t = t} {p = p} {l = l} {m = m} e h) =
    ground (arith, match_levels-cons l t m p, text_eq_iff m single_wildcard, Matches→levels h)
Matches→levels (level {t = t} {p = p} {l = l} {m = m} e h) =
    ground (arith, match_levels-cons l t m p, text_eq_iff l m, Matches→levels h)
Matches→levels (overrun {p = p} {m = m} e h ne) =
    rw (match_levels-nil p m) (Matches→reaches m (overrun e h ne))

levels→Matches : (t p : List Text) → match_levels t p ≡ true → Matches t p
levels→Matches [] [] h = done
levels→Matches (l ∷ t) [] h = absurd (cc (no_levels.1 l t))
levels→Matches [] (m ∷ p) h = reaches→Matches m p (rw (match_levels-nil p m) at h)
levels→Matches (l ∷ t) (m ∷ p) h = elim (Bool-cases (text_eq m multi_wildcard)) [
  | inl e ↦ multi ((text_eq_iff m multi_wildcard).0 e)
  | inr e ↦ elim (Bool-cases (text_eq m single_wildcard)) [
    | inl one ↦
        single ((text_eq_iff m single_wildcard).0 one)
          (levels→Matches t p (ground (arith, match_levels-cons l t m p)))
    | inr none ↦
        level (ground (arith, match_levels-cons l t m p, text_eq_iff l m))
          (levels→Matches t p (ground (arith, match_levels-cons l t m p)))
  ]
]

-- `matchTopic` returns true exactly for the topics whose levels match those of the pattern.
pub match_topic-eq-Matches :
    (topic pattern : Text)
    → (match_topic topic pattern ≡ true) ↔ Matches (levels topic) (levels pattern)
unfolding match_topic
match_topic-eq-Matches topic pattern =
    (levels→Matches (levels topic) (levels pattern), λ h. Matches→levels h)
