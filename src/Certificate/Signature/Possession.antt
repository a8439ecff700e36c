-- ===== src/Certificate/Signature/Possession.antt =====
-- What a verified key address says of the client: it holds the key of a certificate of its chain.
use otmc_broker.Prelude.{
  ℕ, Text, text_eq, text_eq_iff, Bool-cases, true, List, [], ◌∷◌, List-cases, Option, some,
  get_elem?, ◌≡◌, ◌⊎◌, inl, inr, arith, ap, ◌∙◌, subst, sym, Any, map,
}
use mathlib.Core.Option.{some-injective}
use otmc_broker.Map
use otmc_broker.TextSet
use otmc_broker.TextSet.{TextSet}
use otmc_broker.Result.{ok}
use otmc_broker.Json.{Value, iterate}
use otmc_broker.Collect.{Collector}
use otmc_broker.Runtime.{Runtime}
use otmc_broker.Certificate.{Certificate, map_hashes, get_public_key_hash}
use otmc_broker.Certificate.Signature.{verify_signature}
use otmc_broker.Certificate.Signature.Proof.{Proves, verify_signature-Proves}

module _ (r : Runtime) where
  open r use {Cert, key_hash}

  -- Under the hash there is a certificate of the chain whose key has this hash.
  abbrev pub IsOwn : List Cert → Text → Cert → Type 0
  IsOwn chain hash cert = (key_hash cert ≡ hash) × Any (λ c. c ≡ cert) chain

  map_hashes-IsOwn :
      (certs : Map.Map Cert) (chain : List Cert) (hash : Text) (cert : Cert)
      → Map.get (map_hashes r certs chain) hash ≡ some cert
      → (Map.get certs hash ≡ some cert) ⊎ IsOwn chain hash cert
  unfolding map_hashes
  map_hashes-IsOwn certs [] hash cert e = inl e
  map_hashes-IsOwn certs (c ∷ chain) hash cert e =
      elim (map_hashes-IsOwn (Map.set certs (key_hash c) c) chain hash cert e) [
        | inr (own, there) ↦ inr (own, inr there)
        | inl set ↦ elim (Bool-cases (text_eq (key_hash c) hash)) [
          | inr other ↦ inl (ground (arith, Map.get-set certs (key_hash c) c hash))
          | inl same ↦
              let is_c : c ≡ cert =
                some-injective c cert (ground (arith, Map.get-set certs (key_hash c) c hash)) in
              inr (sym (ap key_hash is_c) ∙ (text_eq_iff (key_hash c) hash).0 same, inl is_c)
        ]
      ]

  pub hashed-IsOwn :
      (c : Certificate r) (hash : Text) (cert : Cert)
      → c.full_chain_map ≡ []
      → Map.get (get_public_key_hash r c).0.full_chain_map hash ≡ some cert
      → IsOwn c.full_chain hash cert
  unfolding get_public_key_hash Map.get
  hashed-IsOwn c hash cert fresh e = elim (List-cases c.full_chain) [
    | inl empty ↦ absurd (ground arith)
    | inr (root, chain, shape) ↦
        rw shape (elim (map_hashes-IsOwn [] (root ∷ chain) hash cert (rw (shape, fresh) at e)) [
          | inl absent ↦ absurd (cc absent)
          | inr own ↦ own
        ])
  ]

  get_public_key_hash-chain :
      (c : Certificate r) → (get_public_key_hash r c).0.full_chain ≡ c.full_chain
  unfolding get_public_key_hash
  get_public_key_hash-chain c = elim (List-cases c.full_chain) [
    | inl empty ↦ rw (get_public_key_hash, empty) empty
    | inr (root, chain, shape) ↦ rw (get_public_key_hash, shape) shape
  ]

  pub get_public_key_hash_keys :
      (c : Certificate r) (hashes : List Text)
      → (get_public_key_hash r c).1 ≡ some hashes
      → hashes ≡ map key_hash c.full_chain
  unfolding get_public_key_hash
  get_public_key_hash_keys c hashes e = elim (List-cases c.full_chain) [
    | inl empty ↦ absurd (ground arith)
    | inr (root, chain, shape) ↦
        rw shape (some-injective hashes (map key_hash (root ∷ chain)) (sym (rw shape at e)))
  ]

module _ (r : Runtime) {Client : Type 0} (collect : Collector Client) where
  open r use {Cert, key_hash}

  -- The challenge proves the key with the certificate, which is of the chain and whose key has the hash.
  pub record Possesses (c : Certificate r) (now : ℕ) (hash : Text) (challenge : Value)
      : Type 0 where
    pub proves : Proves r collect c now hash challenge
    pub own_hash : key_hash proves.cert ≡ hash
    pub of_chain : Any (λ k. k ≡ proves.cert) c.full_chain

  -- Some challenge of the list does so, at the reading of its round.
  abbrev pub SomePossesses : Certificate r → (ℕ → ℕ) → Text → List Value → Type 0
  SomePossesses c clock hash list =
      (j : ℕ) × (challenge : Value) × (get_elem? list j ≡ some challenge)
      × Possesses c (clock j) hash challenge

  -- A certificate object comes to `verifySignature` after `getPublicKeyHash`, which was called when its
  -- map of hashes was empty. Then each key that `verifySignature` reports is proved by one of the given
  -- challenges: there is a certificate in the chain whose public key has the reported hash, and with
  -- this certificate the challenge's signature verifies over data that holds the client's pending
  -- challenge and a time near to the clock's reading in that round.
  pub verified_is_possessed :
      (c : Certificate r) (clock : ℕ → ℕ) (challenges : Option Value) (verified : TextSet)
      (hash : Text)
      → c.full_chain_map ≡ []
      → verify_signature r collect (get_public_key_hash r c).0 clock challenges ≡ ok (some verified)
      → TextSet.has verified hash ≡ true
      → (list : List Value) × (iterate challenges ≡ ok list)
        × SomePossesses (get_public_key_hash r c).0 clock hash list
  verified_is_possessed c clock challenges verified hash fresh e h =
      let (list, listed, (j, challenge, at, later)) =
        verify_signature-Proves r collect (get_public_key_hash r c).0 clock challenges verified hash
          e h in
      let proves =
        subst (λ k. Proves r collect (get_public_key_hash r c).0 (clock k) hash challenge)
          (omega arith) later in
      let (own, there) = hashed-IsOwn r c hash proves.cert fresh proves.in_chain in
      (
        list,
        listed,
        (
          j,
          challenge,
          at,
          record {
            proves = proves;
            own_hash = own;
            of_chain = rw (get_public_key_hash-chain r c) there;
          },
        ),
      )
