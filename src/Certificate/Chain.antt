-- ===== src/Certificate/Chain.antt =====
-- `loadCerts` and `verifyCertChain`: the chain that a valid certificate object holds.
pub mod Valid
use otmc_broker.Prelude.{
  ℕ, zero, suc, ◌+◌, ◌≤◌, Text, text_eq, text_eq_iff, Bool, Bool-cases, true, false, not, ◌&&◌,
  List, [], ◌∷◌, ◌++◌, Option, Option-cases, inl, inr, none, some, ◌≡◌, ◌∙◌, ap, subst, ◌≢◌, ◌⊎◌,
  ◌↔◌, refl, arith, length, All, ltb, get_last?, append_assoc, if◌then◌else◌,
}
use mathlib.Core.List.{Perm, append-nil}
use mathlib.Core.List.Perm
use otmc_broker.Runtime.{Runtime}
use otmc_broker.Certificate.{Certificate, take_first, rebuild, verify_links}

module _ {ℓ} {A : Type ℓ} where
  take_first-cases :
      (test : A → Bool) (x : A) (xs : List A) (y : A) (ys : List A)
      → take_first test (x ∷ xs) ≡ some (y, ys)
      → ((test x ≡ true) × (x ∷ xs ≡ y ∷ ys))
        ⊎ ((zs : List A) × (take_first test xs ≡ some (y, zs)) × (x ∷ zs ≡ ys))
  unfolding take_first
  take_first-cases test x xs y ys e = elim (Bool-cases (test x)) [
    | inl here ↦ inl (here, ground arith)
    | inr later ↦ elim (Option-cases (take_first test xs)) [
      | inl n ↦ absurd (ground arith)
      | inr ((z, zs), s) ↦ inr (zs, ground arith, ground arith)
    ]
  ]

  -- `findIndex` finds an element that passes the test.
  pub take_first-test :
      (test : A → Bool) (xs : List A) (y : A) (ys : List A)
      → take_first test xs ≡ some (y, ys)
      → test y ≡ true
  take_first-test test [] y ys e = unfold take_first in cc
  take_first-test test (x ∷ xs) y ys e = elim (take_first-cases test x xs y ys e) [
    | inl (here, s) ↦ ground arith
    | inr (zs, s, l) ↦ take_first-test test xs y zs s
  ]

  pub length-take_first :
      (test : A → Bool) (xs : List A) (y : A) (ys : List A)
      → take_first test xs ≡ some (y, ys)
      → length xs ≡ suc (length ys)
  length-take_first test [] y ys e = unfold take_first in cc
  length-take_first test (x ∷ xs) y ys e = elim (take_first-cases test x xs y ys e) [
    | inl (here, s) ↦ ap length s
    | inr (zs, s, l) ↦ omega (arith, ap length l, length-take_first test xs y zs s)
  ]

  -- The element and the others make up the list.
  pub take_first-perm :
      (test : A → Bool) (xs : List A) (y : A) (ys : List A)
      → take_first test xs ≡ some (y, ys)
      → Perm xs (y ∷ ys)
  take_first-perm test [] y ys e = unfold take_first in cc
  take_first-perm test (x ∷ xs) y ys e = elim (take_first-cases test x xs y ys e) [
    | inl (here, s) ↦ subst (Perm (x ∷ xs)) s (Perm.refl (x ∷ xs))
    | inr (zs, s, l) ↦
        subst (λ l. Perm (x ∷ xs) (y ∷ l)) l
          (Perm.trans (Perm.cons x (take_first-perm test xs y zs s)) (Perm.swap y x zs))
  ]

module _ (r : Runtime) where
  open r use {Cert, check_issued, valid_from, valid_to}

  -- Each certificate was issued by the one before it, the first by `parent`.
  abbrev pub IssuedBy : Cert → List Cert → Type 0
  IssuedBy parent [] = Unit
  IssuedBy parent (c ∷ chain) = (check_issued c parent ≡ true) × IssuedBy c chain

  -- The `while` loop ends with a result in at most as many rounds as there are certificates left.
  pub rebuild_total :
      (fuel : ℕ) (chain : List Cert) (parent : Cert) (remaining : List Cert)
      → length remaining ≤ fuel
      → (result : List Cert × Bool) × (rebuild r fuel chain parent remaining ≡ some result)
  unfolding rebuild
  rebuild_total fuel chain parent [] h = ((chain, true), refl)
  rebuild_total zero chain parent (c ∷ remaining) h = absurd (omega arith)
  rebuild_total (suc fuel) chain parent (c ∷ remaining) h =
      elim (Option-cases (take_first (λ child. check_issued child parent) (c ∷ remaining))) [
        | inl e ↦ ((chain, false), rw (e, rebuild))
        | inr ((child, others), e) ↦
            rw (e, rebuild)
              (rebuild_total fuel (chain ++ child ∷ []) child others (
                omega (
                  arith,
                  length-take_first (λ child. check_issued child parent) (c ∷ remaining) child
                      others e,
                )))
      ]

  module _ (fuel : ℕ) (chain : List Cert) (parent c : Cert) (remaining : List Cert) where
    abbrev next_child : Option (Cert × List Cert)
    next_child = take_first (λ child. check_issued child parent) (c ∷ remaining)

    rebuild_broken :
        next_child ≡ none → rebuild r (suc fuel) chain parent (c ∷ remaining) ≡ some (chain, false)
    unfolding rebuild
    rebuild_broken e = rw (e, rebuild)

    rebuild_step :
        (child : Cert) (others : List Cert)
        → next_child ≡ some (child, others)
        → rebuild r (suc fuel) chain parent (c ∷ remaining)
          ≡ rebuild r fuel (chain ++ child ∷ []) child others
    unfolding rebuild
    rebuild_step child others e = rw (e, rebuild)

  -- When the loop ends with nothing left over, it has put each certificate into the chain once, and
  -- each was issued by the one before it.
  pub rebuild_sound :
      (fuel : ℕ) (chain : List Cert) (parent : Cert) (remaining result : List Cert)
      → rebuild r fuel chain parent remaining ≡ some (result, true)
      → (rest : List Cert) × (result ≡ chain ++ rest) × IssuedBy parent rest × Perm remaining rest
  rebuild_sound fuel chain parent [] result e =
      ([], unfold rebuild in rw append-nil (ground arith), tt, Perm.refl [])
  rebuild_sound zero chain parent (c ∷ remaining) result e = unfold rebuild in cc
  rebuild_sound (suc fuel) chain parent (c ∷ remaining) result e =
      elim (Option-cases (next_child fuel chain parent c remaining)) [
        | inl n ↦ absurd (cc (rebuild_broken fuel chain parent c remaining n))
        | inr ((child, others), s) ↦
            let (rest, a, b, p) =
              rebuild_sound fuel (chain ++ child ∷ []) child others result
                (cc (rebuild_step fuel chain parent c remaining child others s)) in
            (
              child ∷ rest,
              a ∙ append_assoc chain (child ∷ []) rest,
              (take_first-test _ (c ∷ remaining) child others s, b),
              Perm.trans (take_first-perm _ (c ∷ remaining) child others s) (Perm.cons child p),
            )
      ]

  -- In time, and each issued by the one before it.
  abbrev pub InTime : ℕ → Cert → Type 0
  InTime now c = (valid_from c ≤ now) × (now ≤ valid_to c)

  pub verify_links-some :
      (now : ℕ) (parent : Cert) (chain : List Cert)
      → (verify_links r now (some parent) chain ≡ true)
        ↔ (All (InTime now) chain × IssuedBy parent chain)
  unfolding verify_links
  verify_links-some now parent [] = ground arith
  verify_links-some now parent (c ∷ chain) = ground (arith, verify_links-some now c chain)
