-- ===== src/Certificate/Signature/Complete.antt =====
-- A client that signs its challenges is verified.
use otmc_broker.Prelude.{
  ℕ, suc, Text, text_eq_refl, true, List, [], ◌∷◌, Option, some, ◌≡◌, refl, arith, All,
}
use otmc_broker.Map
use otmc_broker.TextSet
use otmc_broker.TextSet.{TextSet}
use otmc_broker.Result.{ok}
use otmc_broker.Json.{Value, string, key_text, to_text, iterate}
use otmc_broker.Collect.{Collector}
use otmc_broker.PlainObject.{found, member}
use otmc_broker.Runtime.{Runtime}
use otmc_broker.Certificate.{Certificate, find_cert}
use otmc_broker.Certificate.Signature.{
  add_address, verify_claim, check_signature, verify_signature_single, verify_challenge,
  verify_loop, verify_signature,
}
use otmc_broker.Certificate.Signature.Checked.{Checked}
use otmc_broker.Certificate.Signature.Proof.{Proves}

module _ (r : Runtime) {Client : Type 0} (collect : Collector Client) where
  open r use {Cert}

  found_at :
      (certs : Map.Map Cert) (hash : Text) (cert : Cert)
      → Map.get certs hash ≡ some cert
      → find_cert r certs (key_text (some (string hash))) ≡ found cert
  unfolding find_cert member key_text to_text
  found_at certs hash cert there = rw (find_cert, member, there) refl

  claim_verifies :
      (client_id : Text) (now : ℕ) (data_json signature algorithm : Option Value) (cert : Cert)
      → Checked r collect client_id now data_json signature algorithm (found cert)
      → verify_signature_single r collect client_id now data_json signature algorithm (found cert)
        ≡ ok true
  unfolding verify_signature_single verify_claim check_signature
  claim_verifies client_id now data_json signature algorithm cert h =
      rw
        (
          verify_signature_single, verify_claim, h.data_challenge, h.pending, h.data_time, h.recent,
          check_signature, h.decodes, h.verifies,
        )
        refl

  proof_verifies :
      (c : Certificate r) (now : ℕ) (hash : Text) (challenge : Value)
      → Proves r collect c now hash challenge
      → verify_challenge r collect c now challenge ≡ ok (some (string hash), true)
  unfolding verify_challenge
  proof_verifies c now hash challenge p =
      rw
        (
          verify_challenge,
          p.reads,
          p.address,
          found_at c.full_chain_map hash p.cert p.in_chain,
          claim_verifies c.client_id now p.fields.data_json p.fields.signature p.fields.algorithm
              p.cert p.checked,
        )
        refl

  -- The challenges from round i on prove the keys, one each.
  abbrev pub ProveAll : Certificate r → (ℕ → ℕ) → ℕ → List Value → List Text → Type 0
  ProveAll c clock i [] [] = Unit
  ProveAll c clock i (challenge ∷ list) (hash ∷ hashes) =
      Proves r collect c (clock i) hash challenge × ProveAll c clock (suc i) list hashes
  ProveAll c clock i list hashes = ⊥

  abbrev add_all : TextSet → List Text → TextSet
  add_all verified [] = verified
  add_all verified (hash ∷ hashes) = add_all (TextSet.add verified hash) hashes

  loop_verifies :
      (c : Certificate r) (clock : ℕ → ℕ) (i : ℕ) (verified : TextSet) (list : List Value)
      (hashes : List Text)
      → ProveAll c clock i list hashes
      → verify_loop r collect c clock i verified list ≡ ok (add_all verified hashes)
  unfolding verify_loop add_address
  loop_verifies c clock i verified [] [] p = refl
  loop_verifies c clock i verified [] (hash ∷ hashes) p = absurd p
  loop_verifies c clock i verified (challenge ∷ list) [] p = absurd p
  loop_verifies c clock i verified (challenge ∷ list) (hash ∷ hashes) p =
      rw (verify_loop, proof_verifies c (clock i) hash challenge p.0)
        (loop_verifies c clock (suc i) (TextSet.add verified hash) list hashes p.1)

  kept_in :
      (verified : TextSet) (hashes : List Text) (hash : Text)
      → TextSet.has verified hash ≡ true
      → TextSet.has (add_all verified hashes) hash ≡ true
  kept_in verified [] hash h = h
  kept_in verified (other ∷ hashes) hash h =
      kept_in (TextSet.add verified other) hashes hash
        (ground (arith, h, TextSet.has-add verified other hash))

  all_in :
      (verified : TextSet) (hashes : List Text)
      → All (λ hash. TextSet.has (add_all verified hashes) hash ≡ true) hashes
  all_in verified [] = tt
  all_in verified (hash ∷ hashes) = (
    kept_in (TextSet.add verified hash) hashes hash
        (ground (arith, TextSet.has-add verified hash hash, text_eq_refl hash)),
    all_in (TextSet.add verified hash) hashes,
  )

  -- If the chain is not empty and each of the challenges proves a key, in its round of the loop, then
  -- `verifySignature` returns, and reports each of these keys.
  pub verify_signature_complete :
      (c : Certificate r) (clock : ℕ → ℕ) (challenges : Option Value) (root : Cert)
      (chain : List Cert) (list : List Value) (hashes : List Text)
      → c.full_chain ≡ root ∷ chain
      → iterate challenges ≡ ok list
      → ProveAll c clock 0 list hashes
      → (verified : TextSet) × (verify_signature r collect c clock challenges ≡ ok (some verified))
        × All (λ hash. TextSet.has verified hash ≡ true) hashes
  unfolding verify_signature
  verify_signature_complete c clock challenges root chain list hashes not_empty listed p = (
    add_all [] hashes,
    rw (verify_signature, not_empty, listed, loop_verifies c clock 0 [] list hashes p) refl,
    all_in [] hashes,
  )
