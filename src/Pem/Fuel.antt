-- ===== src/Pem/Fuel.antt =====
-- The fuel of the search for certificates: the length of the text is enough.
use otmc_broker.Prelude.{
  ℕ, zero, suc, ◌+◌, ◌≤◌, Text, [], ◌∷◌, ◌++◌, Option, Option-cases, none, some, ◌≡◌, ◌∙◌, sym,
  refl, inl, inr, arith, length, ap,
}
use otmc_broker.Pem.{begin_marker, end_marker, strip_prefix, find_end, find_certs, one_more}

-- The prefix and what follows it make up the text.
length-strip_prefix :
    (p s rest : Text) → strip_prefix p s ≡ some rest → length s ≡ length p + length rest
unfolding strip_prefix
length-strip_prefix [] s rest e = ground arith
length-strip_prefix (x ∷ p) [] rest e = ground arith
length-strip_prefix (x ∷ p) (c ∷ s) rest e = ground (arith, length-strip_prefix p s rest)

module _ (c : ℕ) (s : Text) where
  pub find_end_here :
      (after : Text)
      → strip_prefix end_marker (c ∷ s) ≡ some after
      → find_end (c ∷ s) ≡ some (end_marker, after)
  unfolding find_end
  find_end_here after h = rw (h, find_end)

  pub find_end_later :
      strip_prefix end_marker (c ∷ s) ≡ none → find_end (c ∷ s) ≡ one_more c (find_end s)
  unfolding find_end
  find_end_later h = rw (h, find_end)

one_more_rest :
    (c : ℕ) (found : Option (Text × Text)) (body rest : Text)
    → one_more c found ≡ some (body, rest)
    → (inner : Text) × (found ≡ some (inner, rest))
one_more_rest c none body rest e = cc
one_more_rest c (some (inner, r)) body rest e = (inner, ground arith)

same_rest :
    (m n after rest : Text)
    → ◌≡◌ {A = Option (Text × Text)} (some (m, after)) (some (n, rest))
    → after ≡ rest
same_rest m n after rest e = cc

length-find_end : (s body rest : Text) → find_end s ≡ some (body, rest) → length rest ≤ length s
length-find_end [] body rest e = unfold find_end in cc
length-find_end (c ∷ s) body rest e = elim (Option-cases (strip_prefix end_marker (c ∷ s))) [
  | inr (after, h) ↦ omega (
    arith,
    length-strip_prefix end_marker (c ∷ s) after h,
    ap length (same_rest end_marker body after rest (sym (find_end_here c s after h) ∙ e)),
  )
  | inl h ↦
      let (inner, f) = one_more_rest c (find_end s) body rest (sym (find_end_later c s h) ∙ e) in
      omega (arith, length-find_end s inner rest f)
]

module _ (fuel c : ℕ) (s : Text) where
  pub find_certs_skip :
      strip_prefix begin_marker (c ∷ s) ≡ none → find_certs (suc fuel) (c ∷ s) ≡ find_certs fuel s
  unfolding find_certs
  find_certs_skip e = rw (e, find_certs)

  find_certs_open :
      (after : Text)
      → strip_prefix begin_marker (c ∷ s) ≡ some after
      → find_end after ≡ none
      → find_certs (suc fuel) (c ∷ s) ≡ find_certs fuel s
  unfolding find_certs
  find_certs_open after e n = rw (e, find_certs) (rw n)

  pub find_certs_take :
      (after body rest : Text)
      → strip_prefix begin_marker (c ∷ s) ≡ some after
      → find_end after ≡ some (body, rest)
      → find_certs (suc fuel) (c ∷ s) ≡ (begin_marker ++ body) ∷ find_certs fuel rest
  unfolding find_certs
  find_certs_take after body rest e f = rw (e, find_certs) (rw f)

-- Any two amounts of fuel that are enough for the text give the same certificates.
pub find_certs_enough :
    (f g : ℕ) (s : Text) → length s ≤ f → length s ≤ g → find_certs f s ≡ find_certs g s
find_certs_enough zero zero s h k = refl
find_certs_enough zero (suc g) [] h k = unfold find_certs in refl
find_certs_enough (suc f) zero [] h k = unfold find_certs in refl
find_certs_enough (suc f) (suc g) [] h k = unfold find_certs in refl
find_certs_enough zero (suc g) (c ∷ s) h k = absurd (omega arith)
find_certs_enough (suc f) zero (c ∷ s) h k = absurd (omega arith)
find_certs_enough (suc f) (suc g) (c ∷ s) h k =
    elim (Option-cases (strip_prefix begin_marker (c ∷ s))) [
      | inl n ↦
          find_certs_skip f c s n
          ∙ find_certs_enough f g s (omega arith) (omega arith)
          ∙ sym (find_certs_skip g c s n)
      | inr (after, p) ↦ elim (Option-cases (find_end after)) [
        | inl n ↦
            find_certs_open f c s after p n
            ∙ find_certs_enough f g s (omega arith) (omega arith)
            ∙ sym (find_certs_open g c s after p n)
        | inr ((body, rest), e) ↦
            find_certs_take f c s after body rest p e
            ∙ ap (λ certs. (begin_marker ++ body) ∷ certs)
                (find_certs_enough f g rest
                  (omega (
                    arith,
                    length-strip_prefix begin_marker (c ∷ s) after p,
                    length-find_end after body rest e,
                  ))
                  (omega (
                    arith,
                    length-strip_prefix begin_marker (c ∷ s) after p,
                    length-find_end after body rest e,
                  )))
            ∙ sym (find_certs_take g c s after body rest p e)
      ]
    ]
