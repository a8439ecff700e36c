-- ===== src/Proxy/Bridges.antt =====
-- The place of a socket's bridge among the bridges of ProxyWSS/index.mjs.
use mathlib.Core.Option.{some-injective}
use otmc_broker.Prelude.{
  ℕ, Bool-cases, List, [], ◌∷◌, ◌++◌, some, inl, inr, ◌≡◌, ◌==◌, ap, subst, sym, All, arith,
}
use otmc_broker.Proxy.Data.{Bridge}
use otmc_broker.Proxy.Handlers.{bridge_of, without}

-- The bridge of a socket, and those before and after it.
pub record At (bridges : List Bridge) (socket : ℕ) (bridge : Bridge) : Type 0 where
  pub before : List Bridge
  pub later : List Bridge
  pub all : bridges ≡ before ++ bridge ∷ later
  pub others : without bridges socket ≡ before ++ later

pub bridge_of-At :
    (bridges : List Bridge) (socket : ℕ) (bridge : Bridge)
    → bridge_of bridges socket ≡ some bridge
    → At bridges socket bridge
unfolding bridge_of without
bridge_of-At [] socket bridge e = absurd (cc e)
bridge_of-At (b ∷ bridges) socket bridge e = elim (Bool-cases (b.socket == socket)) [
  | inl here ↦
      let same : b ≡ bridge = some-injective b bridge (rw here at e) in
      record {
        before = [];
        later = bridges;
        all = ap (λ x. x ∷ bridges) same;
        others = ground (arith, here);
      }
  | inr other ↦
      let found = bridge_of-At bridges socket bridge (rw other at e) in
      record {
        before = b ∷ found.before;
        later = found.later;
        all = ap (λ l. b ∷ l) found.all;
        others = ground (arith, other, found.others);
      }
]

pub without-All {κ} :
    (P : Bridge → Type κ) (bridges : List Bridge) (socket : ℕ)
    → All P bridges
    → All P (without bridges socket)
unfolding without
without-All P [] socket all = tt
without-All P (b ∷ bridges) socket all = elim (Bool-cases (b.socket == socket)) [
  | inl here ↦ rw here all.1
  | inr other ↦ rw other (all.0, without-All P bridges socket all.1)
]

pub bridge_of-All {κ} :
    (P : Bridge → Type κ) (bridges : List Bridge) (socket : ℕ) (bridge : Bridge)
    → bridge_of bridges socket ≡ some bridge
    → All P bridges
    → P bridge
unfolding bridge_of
bridge_of-All P [] socket bridge e all = absurd (cc e)
bridge_of-All P (b ∷ bridges) socket bridge e all = elim (Bool-cases (b.socket == socket)) [
  | inl here ↦ subst P (some-injective b bridge (rw here at e)) all.0
  | inr other ↦ bridge_of-All P bridges socket bridge (rw other at e) all.1
]

pub bridge_of-socket :
    (bridges : List Bridge) (socket : ℕ) (bridge : Bridge)
    → bridge_of bridges socket ≡ some bridge
    → bridge.socket ≡ socket
unfolding bridge_of
bridge_of-socket [] socket bridge e = absurd (cc e)
bridge_of-socket (b ∷ bridges) socket bridge e = elim (Bool-cases (b.socket == socket)) [
  | inl here ↦ ground (arith, here, ap (λ x. x.socket) (some-injective b bridge (rw here at e)))
  | inr other ↦ bridge_of-socket bridges socket bridge (rw other at e)
]

pub bridge_of_own :
    (bridges : List Bridge) (socket : ℕ) (bridge : Bridge)
    → bridge_of bridges socket ≡ some bridge
    → bridge_of bridges bridge.socket ≡ some bridge
bridge_of_own bridges socket bridge e =
    subst (λ x. bridge_of bridges x ≡ some bridge) (sym (bridge_of-socket bridges socket bridge e))
      e
