-- ===== src/Pem/RoundTrip.antt =====
-- A text of certificates, one after the other, is split into these certificates.
use otmc_broker.Prelude.{
  ℕ, zero, suc, ◌≤◌, Text, Avoids, List, [], ◌∷◌, ◌++◌, map, none, some, ◌≡◌, ◌≢◌, ◌∙◌, refl, arith,
  length, length-append, ap, All,
}
use otmc_broker.Pem.{
  begin_marker, end_marker, strip_prefix, find_end, find_certs, one_more, split_cert_chain,
}
use otmc_broker.Pem.Fuel.{
  find_end_here, find_end_later, find_certs_skip, find_certs_take, find_certs_enough,
}

abbrev pub NoDash : Text → Type 0
NoDash = Avoids b'-'

abbrev pub pem : Text → Text
pem body = begin_marker ++ (body ++ end_marker)

-- A certificate's body and what stands between it and the next certificate.
abbrev pub Block : Type 0
Block = Text × Text

abbrev pub HasNoDash : Block → Type 0
HasNoDash (body, gap) = NoDash body × NoDash gap

abbrev pub chain_text : List Block → Text
chain_text [] = []
chain_text ((body, gap) ∷ blocks) = pem body ++ (gap ++ chain_text blocks)

strip_prefix-append : (p s : Text) → strip_prefix p (p ++ s) ≡ some s
unfolding strip_prefix
strip_prefix-append [] s = refl
strip_prefix-append (c ∷ p) s = ground (arith, strip_prefix-append p s)

no_marker :
    (c : ℕ) (s : Text)
    → c ≢ b'-'
    → (strip_prefix begin_marker (c ∷ s) ≡ none) × (strip_prefix end_marker (c ∷ s) ≡ none)
unfolding strip_prefix
no_marker c s h = ground arith

find_end_body :
    (body s : Text)
    → NoDash body
    → find_end ((body ++ end_marker) ++ s) ≡ some (body ++ end_marker, s)
find_end_body [] s h = find_end_here _ _ s (strip_prefix-append end_marker s)
find_end_body (c ∷ body) s h =
    find_end_later c ((body ++ end_marker) ++ s) (no_marker c _ h.0).1
    ∙ ap (one_more c) (find_end_body body s h.1)

find_certs_gap :
    (fuel : ℕ) (gap s : Text)
    → NoDash gap
    → length (gap ++ s) ≤ fuel
    → find_certs fuel (gap ++ s) ≡ find_certs fuel s
find_certs_gap fuel [] s h k = refl
find_certs_gap zero (c ∷ gap) s h k = absurd (omega arith)
find_certs_gap (suc fuel) (c ∷ gap) s h k =
    find_certs_skip fuel c (gap ++ s) (no_marker c (gap ++ s) h.0).0
    ∙ find_certs_gap fuel gap s h.1 (omega arith)
    ∙ find_certs_enough fuel (suc fuel) s (omega (arith, length-append gap s))
        (omega (arith, length-append gap s))

find_certs_block :
    (fuel : ℕ) (body s : Text)
    → NoDash body
    → length (pem body ++ s) ≤ fuel
    → find_certs fuel (pem body ++ s) ≡ pem body ∷ find_certs fuel s
find_certs_block zero body s h k = absurd (omega arith)
find_certs_block (suc fuel) body s h k =
    find_certs_take fuel _ _ ((body ++ end_marker) ++ s) (body ++ end_marker) s
      (strip_prefix-append begin_marker ((body ++ end_marker) ++ s)) (find_end_body body s h)
    ∙ ap (λ certs. pem body ∷ certs)
        (find_certs_enough fuel (suc fuel) s (omega (arith, length-append (body ++ end_marker) s))
          (omega (arith, length-append (body ++ end_marker) s)))

find_certs_chain :
    (fuel : ℕ) (blocks : List Block)
    → All HasNoDash blocks
    → length (chain_text blocks) ≤ fuel
    → find_certs fuel (chain_text blocks) ≡ map (λ block. pem block.0) blocks
find_certs_chain zero [] h k = unfold find_certs in refl
find_certs_chain (suc fuel) [] h k = unfold find_certs in refl
find_certs_chain fuel ((body, gap) ∷ blocks) h k =
    find_certs_block fuel body (gap ++ chain_text blocks) h.0.0 k
    ∙ ap (λ certs. pem body ∷ certs)
        (find_certs_gap fuel gap (chain_text blocks) h.0.1
            (omega (arith, length-append (pem body) (gap ++ chain_text blocks)))
          ∙ find_certs_chain fuel blocks h.1 (
              omega (
                arith,
                length-append (pem body) (gap ++ chain_text blocks),
                length-append gap (chain_text blocks),
              )))

-- `splitCertChain` of certificates one after the other gives these certificates in their order, if
-- there is no dash in their bodies and in what stands before, between and behind them.
pub split_cert_chain-chain_text :
    (gap : Text) (blocks : List Block)
    → NoDash gap
    → All HasNoDash blocks
    → split_cert_chain (some (gap ++ chain_text blocks)) ≡ map (λ block. pem block.0) blocks
unfolding split_cert_chain
split_cert_chain-chain_text gap blocks g h =
    find_certs_gap (length (gap ++ chain_text blocks)) gap (chain_text blocks) g (omega arith)
    ∙ find_certs_chain (length (gap ++ chain_text blocks)) blocks h
        (omega (arith, length-append gap (chain_text blocks)))
