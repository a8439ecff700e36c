-- ===== src/NodeId/RoundTrip.antt =====
-- A node id tells the number of the digest: base58 is read back.
use otmc_broker.Prelude.{
  ℕ, zero, suc, ◌+◌, ◌*◌, ◌/◌, ◌%◌, ◌≤◌, ◌<◌, Text, Bool, Bool-cases, true, false, ◌&&◌, List, [],
  ◌∷◌, ◌++◌, Option-cases, none, some, inl, inr, ◌≡◌, ◌∙◌, refl, sym, ap, arith, get_elem?, ◌==◌,
  ==_iff, &&-eq-true, append_assoc, subst, ◌⊎◌, if◌then◌else◌,
}
use mathlib.Core.Option.{some-injective}
use otmc_broker.Result.{ok, err, library_error}
use otmc_broker.NodeId.{
  base58_alphabet, base58_char, base58_loop, big_int, leading_zeros, repeat, node_id,
}

-- The place of a character in the alphabet.
unfoldable pub position : ℕ → Text → ℕ
position c [] = 0
position c (a ∷ rest) = if a == c then 0 else suc (position c rest)

-- Base58 read from the left.
unfoldable pub value_of : ℕ → Text → ℕ
value_of value [] = value
value_of value (c ∷ text) = value_of (value * 58 + position c base58_alphabet) text

unfoldable stands_at : ℕ → Bool
stands_at i = elim (get_elem? base58_alphabet i) [
  | none ↦ false
  | some c ↦ position c base58_alphabet == i
]

unfoldable every : ℕ → (ℕ → Bool) → Bool
every zero test = true
every (suc n) test = test n && every n test

every_lem : (n : ℕ) (test : ℕ → Bool) (i : ℕ) → every n test ≡ true → i < n → test i ≡ true
unfolding every
every_lem zero test i h k = absurd (omega arith)
every_lem (suc n) test i h k = elim (Bool-cases (i == n)) [
  | inl same ↦
      subst (λ j. test j ≡ true) (sym ((==_iff i n).0 same))
        ((&&-eq-true (test n) (every n test)).0 h).0
  | inr other ↦
      every_lem n test i ((&&-eq-true (test n) (every n test)).0 h).1 (ground (arith, ==_iff i n))
]

all_stand : every 58 stands_at ≡ true
unfolding every stands_at position
all_stand = refl

stands_at_char :
    (i c : ℕ)
    → get_elem? base58_alphabet i ≡ some c
    → stands_at i ≡ true
    → position c base58_alphabet ≡ i
unfolding stands_at
stands_at_char i c e h = (==_iff (position c base58_alphabet) i).0 (rw e at h)

stands_at-none : (i : ℕ) → get_elem? base58_alphabet i ≡ none → stands_at i ≡ false
unfolding stands_at
stands_at-none i e = rw e

base58_char-some : (i c : ℕ) → get_elem? base58_alphabet i ≡ some c → base58_char i ≡ c ∷ []
unfolding base58_char
base58_char-some i c e = rw e

base58_char-position :
    (i : ℕ) → i < 58 → (c : ℕ) × (base58_char i ≡ c ∷ []) × (position c base58_alphabet ≡ i)
base58_char-position i h = elim (Option-cases (get_elem? base58_alphabet i)) [
  | inl e ↦ absurd (ground (arith, stands_at-none i e, every_lem 58 stands_at i all_stand h))
  | inr (c, e) ↦
      (c, base58_char-some i c e, stands_at_char i c e (every_lem 58 stands_at i all_stand h))
]

-- One character less, and the number that it stood for added.
value_of-base58_char :
    (value i : ℕ) (text : Text)
    → i < 58
    → value_of value (base58_char i ++ text) ≡ value_of (value * 58 + i) text
unfolding value_of
value_of-base58_char value i text h =
    let (c, e, p) = base58_char-position i h in rw e (ap (λ j. value_of (value * 58 + j) text) p)

base58_loop_reads :
    (fuel value : ℕ) (text result : Text)
    → base58_loop fuel value text ≡ some result
    → value_of 0 result ≡ value_of value text
unfolding base58_loop
base58_loop_reads fuel zero text result e = ap (value_of 0) (sym (some-injective text result e))
base58_loop_reads zero (suc value) text result e = cc
base58_loop_reads (suc fuel) (suc value) text result e =
    base58_loop_reads fuel (suc value / 58) (base58_char (suc value % 58) ++ text) result e
    ∙ value_of-base58_char (suc value / 58) (suc value % 58) text (omega arith)
    ∙ ap (λ v. value_of v text) (omega arith)

base58_loop_total :
    (fuel value : ℕ) (text : Text)
    → value ≤ fuel
    → (result : Text) × (base58_loop fuel value text ≡ some result)
unfolding base58_loop
base58_loop_total fuel zero text h = (text, refl)
base58_loop_total zero (suc value) text h = absurd (omega arith)
base58_loop_total (suc fuel) (suc value) text h =
    base58_loop_total fuel (suc value / 58) (base58_char (suc value % 58) ++ text) (omega arith)

value_of-repeat :
    (n : ℕ) (text : Text) → value_of 0 (repeat n (base58_char 0) ++ text) ≡ value_of 0 text
value_of-repeat zero text = refl
value_of-repeat (suc n) text =
    ap (value_of 0) (append_assoc (base58_char 0) (repeat n (base58_char 0)) text)
    ∙ value_of-base58_char 0 0 (repeat n (base58_char 0) ++ text) (omega arith)
    ∙ value_of-repeat n text

-- The node id of a digest that is not all zeros is a text, the loop ends for it, and the text read as a
-- number in base58 is the number of the digest; for other digests the code throws.
pub value_of-node_id :
    (digest : List ℕ)
    → ((leading_zeros digest ≡ none) × (node_id digest ≡ err library_error))
      ⊎ ((text : Text) × (node_id digest ≡ ok (some text)) × (value_of 0 text ≡ big_int 0 digest))
unfolding node_id
value_of-node_id digest = elim (Option-cases (leading_zeros digest)) [
  | inl e ↦ inl (e, rw (e, node_id))
  | inr (zeros, e) ↦
      let (text, t) = base58_loop_total (big_int 0 digest) (big_int 0 digest) [] (omega arith) in
      inr (
        repeat zeros (base58_char 0) ++ text,
        rw (e, node_id) (rw t),
        value_of-repeat zeros text
            ∙ base58_loop_reads (big_int 0 digest) (big_int 0 digest) [] text t
            ∙ unfold value_of in refl,
      )
]
