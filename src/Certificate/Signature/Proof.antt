-- ===== src/Certificate/Signature/Proof.antt =====
-- What a verified key address proves.
use otmc_broker.Prelude.{
  ℕ, suc, ◌+◌, Text, text_eq, text_eq_iff, Bool, Bool-cases, true, false, List, [], ◌∷◌, Option,
  some, get_elem?, ◌≡◌, ◌⊎◌, inl, inr, refl, arith, ap, subst, if◌then◌else◌,
}
use otmc_broker.Map
use otmc_broker.TextSet
use otmc_broker.TextSet.{TextSet}
use otmc_broker.Result.{Result-cases, ok}
use otmc_broker.Json.{Value, string, key_text, to_text, iterate}
use otmc_broker.Collect.{Collector}
use otmc_broker.Runtime.{Runtime}
use otmc_broker.PlainObject.{found}
use otmc_broker.Certificate.{Certificate, find_cert}
use otmc_broker.Certificate.Signature.{
  Challenge, read_challenge, add_address, verify_signature_single, verify_challenge, verify_loop,
  verify_signature,
}
use otmc_broker.Certificate.Signature.Checked.{Checked, find_cert-found, single-Checked}

module _ (r : Runtime) {Client : Type 0} (collect : Collector Client) where
  open r use {Cert}

  -- The challenge of an `auth` packet proves the key `hash`: a certificate of the chain has that hash,
  -- and its key signed data that holds the client's pending challenge and a time near to `now`.
  pub record Proves (c : Certificate r) (now : ℕ) (hash : Text) (challenge : Value) : Type 0 where
    pub fields : Challenge
    pub reads : read_challenge challenge ≡ ok fields
    pub address : fields.key_address ≡ some (string hash)
    pub cert : Cert
    pub in_chain : Map.get c.full_chain_map hash ≡ some cert
    pub checked :
        Checked r collect c.client_id now fields.data_json fields.signature fields.algorithm
          (found cert)

  module _ (c : Certificate r) (now : ℕ) (hash : Text) (challenge : Value) where
    prove :
        (fields : Challenge)
        → read_challenge challenge ≡ ok fields
        → fields.key_address ≡ some (string hash)
        → verify_signature_single r collect c.client_id now fields.data_json fields.signature
            fields.algorithm
            (find_cert r c.full_chain_map (key_text fields.key_address))
          ≡ ok true
        → Proves c now hash challenge
    unfolding key_text to_text
    prove fields reads address h =
        let (cert, place, checked) =
          single-Checked r collect c.client_id now fields.data_json fields.signature
            fields.algorithm (find_cert r c.full_chain_map (key_text fields.key_address)) h in
        record {
          fields = fields;
          reads = reads;
          address = address;
          cert = cert;
          in_chain = find_cert-found r c.full_chain_map hash cert (rw address at place);
          checked = checked;
        }

    verify_challenge-Proves :
        verify_challenge r collect c now challenge ≡ ok (some (string hash), true)
        → Proves c now hash challenge
    unfolding verify_challenge
    verify_challenge-Proves h = elim (Result-cases (read_challenge challenge)) [
      | inr (e, s) ↦ absurd (ground arith)
      | inl (fields, s) ↦ prove fields s (ground arith) (ground arith)
    ]

  added :
      (verified : TextSet) (address : Option Value) (hash : Text)
      → TextSet.has (add_address verified address) hash ≡ true
      → (TextSet.has verified hash ≡ true) ⊎ (address ≡ some (string hash))
  unfolding add_address
  added verified (some (string t)) hash h = elim (Bool-cases (text_eq t hash)) [
    | inl same ↦ inr (ap (λ x. some (string x)) ((text_eq_iff t hash).0 same))
    | inr other ↦ inl (ground (arith, TextSet.has-add verified t hash))
  ]
  added verified address hash h = inl h

  -- A challenge of the list, from place 0, that proves the key, at the reading of its round.
  abbrev pub SomeProves : Certificate r → (ℕ → ℕ) → Text → List Value → ℕ → Type 0
  SomeProves c clock hash list i =
      (j : ℕ) × (challenge : Value) × (get_elem? list j ≡ some challenge)
      × Proves c (clock (i + j)) hash challenge

  later :
      (c : Certificate r) (clock : ℕ → ℕ) (hash : Text) (list : List Value) (i : ℕ) (first : Value)
      → SomeProves c clock hash list (suc i)
      → SomeProves c clock hash (first ∷ list) i
  later c clock hash list i first (j, challenge, e, p) =
      (suc j, challenge, e, subst (λ k. Proves c (clock k) hash challenge) (omega arith) p)

  module _ (c : Certificate r) (clock : ℕ → ℕ) (hash : Text) (challenge : Value) (list : List Value)
      (i : ℕ) (verified : TextSet) where
    round :
        (address : Option Value) (valid : Bool)
        → verify_challenge r collect c (clock i) challenge ≡ ok (address, valid)
        → (TextSet.has (if valid then add_address verified address else verified) hash ≡ true)
          ⊎ SomeProves c clock hash list (suc i)
        → (TextSet.has verified hash ≡ true) ⊎ SomeProves c clock hash (challenge ∷ list) i
    round address valid s (inr p) = inr (later c clock hash list i challenge p)
    round address false s (inl h) = inl h
    round address true s (inl h) = elim (added verified address hash h) [
      | inl old ↦ inl old
      | inr same ↦ inr (
        0,
        challenge,
        refl,
        subst (λ k. Proves c (clock k) hash challenge) (omega arith)
            (verify_challenge-Proves c (clock i) hash challenge (rw same at s)),
      )
    ]

  verify_loop-Proves :
      (c : Certificate r) (clock : ℕ → ℕ) (hash : Text) (list : List Value) (i : ℕ)
      (verified result : TextSet)
      → verify_loop r collect c clock i verified list ≡ ok result
      → TextSet.has result hash ≡ true
      → (TextSet.has verified hash ≡ true) ⊎ SomeProves c clock hash list i
  unfolding verify_loop
  verify_loop-Proves c clock hash [] i verified result e h = inl (ground arith)
  verify_loop-Proves c clock hash (challenge ∷ list) i verified result e h =
      elim (Result-cases (verify_challenge r collect c (clock i) challenge)) [
        | inr (x, s) ↦ absurd (ground arith)
        | inl ((address, valid), s) ↦ round c clock hash challenge list i verified address valid s (
            verify_loop-Proves c clock hash list (suc i)
              (if valid then add_address verified address else verified) result (ground arith) h)
      ]

  -- Each key that `verifySignature` reports is proved by one of the given challenges: a certificate of
  -- the chain has the key's hash, and a signature with it verifies over data that holds the client's
  -- pending challenge and a time near to the clock's reading in that round.
  pub verify_signature-Proves :
      (c : Certificate r) (clock : ℕ → ℕ) (challenges : Option Value) (verified : TextSet)
      (hash : Text)
      → verify_signature r collect c clock challenges ≡ ok (some verified)
      → TextSet.has verified hash ≡ true
      → (list : List Value) × (iterate challenges ≡ ok list) × SomeProves c clock hash list 0
  unfolding verify_signature TextSet.has
  verify_signature-Proves c clock challenges verified hash e h =
      elim (Result-cases (iterate challenges)) [
        | inr (x, s) ↦ absurd (ground arith)
        | inl (list, s) ↦ elim (Result-cases (verify_loop r collect c clock 0 [] list)) [
          | inr (x, t) ↦ absurd (ground arith)
          | inl (v, t) ↦
              elim (verify_loop-Proves c clock hash list 0 [] verified (ground arith) h) [
                | inl old ↦ absurd (cc)
                | inr p ↦ (list, s, p)
              ]
        ]
      ]
