-- ===== src/Certificate.antt =====
-- `ClientCertificateInternal` of Nodejs_Broker/client_certificate_.mjs. Node's crypto, bs58, `Date` and
-- `JSON` are the parameter `Runtime`.
pub mod Signature
pub mod Chain
use otmc_broker.Prelude.{
  ℕ, zero, suc, ◌+◌, ◌-◌, ◌*◌, Text, codes, text_eq, Bool, true, false, not, ◌&&◌, ◌||◌, List, [],
  ◌∷◌, ◌++◌, map, Option, none, some, length, get_last?, ltb, ◌==◌, if◌then◌else◌,
}
use otmc_broker.Map
use otmc_broker.Map.{Map}
use otmc_broker.PlainObject.{Found, member}
use otmc_broker.TextSet
use otmc_broker.TextSet.{TextSet}
use otmc_broker.Result.{Result, ok, err, type_error, library_error, ◌>>=◌}
use otmc_broker.Json.{
  Value, property, truthy, optional_text, iterate, key_text, to_text, string_value,
}
use otmc_broker.Pem.{split_cert_chain}
use otmc_broker.Collect.{Collector, has_challenge}
use otmc_broker.Runtime.{Runtime}

-- `config.mqtt.client`: the texts of two certificate files.
pub record Config : Type 0 where
  pub ca_root : Text
  pub ca_trusted : Text

-- `findIndex`, and `splice` of that one element: the element and the others.
unfoldable pub take_first {ℓ} : {A : Type ℓ} → (A → Bool) → List A → Option (A × List A)
take_first test [] = none
take_first test (x ∷ xs) =
    let later = take_first test xs in
    if test x then some (x, xs) else elim later [ none ↦ none | some (y, ys) ↦ some (y, x ∷ ys) ]

module _ (r : Runtime) where
  open r use {
    Cert, parse_cert, fingerprint, subject, issuer, check_issued, valid_from, valid_to, key_hash,
    stringify, to_date, to_lower_case, decode_base64, verify,
  }

  pub record Certificate : Type 0 where
    pub client_cert : Option Value
    pub client_id : Text
    pub full_chain_pem : List Text
    pub full_chain : List Cert
    pub full_chain_map : Map Cert
    pub trusted_root_fingerprints : TextSet

  unfoldable pub init : Option Value → Text → Certificate
  init client_cert client_id = record {
    client_cert = client_cert;
    client_id = client_id;
    full_chain_pem = [];
    full_chain = [];
    full_chain_map = [];
    trusted_root_fingerprints = [];
  }

  unfoldable pub add_fingerprints : TextSet → List Text → TextSet
  add_fingerprints fingerprints [] = fingerprints
  add_fingerprints fingerprints (pem ∷ pems) =
      add_fingerprints
        (elim (parse_cert pem) [
          | none ↦ fingerprints
          | some c ↦ TextSet.add fingerprints (fingerprint c)
        ])
        pems

  unfoldable pub collect_cert_full_chain : Config → Certificate → Certificate × Bool
  unfolding add_fingerprints
  collect_cert_full_chain config c =
      let root_pem = split_cert_chain (some config.ca_root) in
      let trusted_pem = split_cert_chain (some config.ca_trusted) in
      let client_pem = split_cert_chain (optional_text c.client_cert) in
      let fingerprints = add_fingerprints [] root_pem in
      if length root_pem == 0
      then (c, false)
      else if length fingerprints == 0
      then (record c { trusted_root_fingerprints = fingerprints }, false)
      else (
        record c {
          trusted_root_fingerprints = fingerprints;
          full_chain_pem = root_pem ++ trusted_pem ++ client_pem;
        },
        true,
      )

  -- The certificates that parse, by fingerprint: the first of each stays.
  unfoldable pub by_fingerprint : Map Cert → List Text → Map Cert
  by_fingerprint certs [] = certs
  by_fingerprint certs (pem ∷ pems) =
      by_fingerprint
        (elim (parse_cert pem) [
          | none ↦ certs
          | some c ↦
              if Map.has certs (fingerprint c) then certs else Map.set certs (fingerprint c) c
        ])
        pems

  unfoldable pub is_root : TextSet → Cert → Bool
  is_root trusted c = text_eq (subject c) (issuer c) && TextSet.has trusted (fingerprint c)

  -- The `while` loop: the chain so far, its last certificate, and the others. The second result says
  -- whether all found a place; `none` means that the fuel ran out.
  unfoldable pub rebuild : ℕ → List Cert → Cert → List Cert → Option (List Cert × Bool)
  rebuild fuel chain parent [] = some (chain, true)
  rebuild zero chain parent (c ∷ remaining) = none
  rebuild (suc fuel) chain parent (c ∷ remaining) =
      elim (take_first (λ child. check_issued child parent) (c ∷ remaining)) [
        | none ↦ some (chain, false)
        | some (child, others) ↦ rebuild fuel (chain ++ child ∷ []) child others
      ]

  unfoldable pub load_certs : Certificate → Certificate × Bool
  unfolding by_fingerprint rebuild take_first is_root
  load_certs c =
      elim (take_first (is_root c.trusted_root_fingerprints)
        (Map.values (by_fingerprint [] c.full_chain_pem))) [
          | none ↦ (c, false)
          | some (root, remaining) ↦ elim (rebuild (length remaining) (root ∷ []) root remaining) [
            | none ↦ (c, false)
            | some (chain, complete) ↦ (record c { full_chain = chain }, complete)
          ]
        ]

  -- The loop over the chain; the parent of the first certificate is `none`.
  unfoldable pub verify_links : ℕ → Option Cert → List Cert → Bool
  verify_links now parent [] = true
  verify_links now parent (c ∷ chain) =
      let rest = verify_links now (some c) chain in
      if ltb now (valid_from c) || ltb (valid_to c) now
      then false
      else elim parent [ none ↦ rest | some p ↦ if not (check_issued c p) then false else rest ]

  unfoldable pub verify_leaf : List Cert → List Text → Result Bool
  verify_leaf chain [] = ok false
  verify_leaf chain (pem ∷ pems) = elim (parse_cert pem) [
    | none ↦ err library_error
    | some expected ↦ elim (get_last? chain) [
      | none ↦ err type_error
      | some actual ↦ ok (text_eq (fingerprint actual) (fingerprint expected))
    ]
  ]

  unfoldable pub verify_cert_chain : ℕ → Certificate → Result Bool
  unfolding verify_links verify_leaf
  verify_cert_chain now c =
      if ltb (length c.full_chain) 2
      then ok false
      else if not (verify_links now none c.full_chain)
      then ok false
      else verify_leaf c.full_chain (split_cert_chain (optional_text c.client_cert))

  abbrev pub false_on_throw : Result Bool → Bool
  false_on_throw (ok b) = b
  false_on_throw (err e) = false

  unfoldable pub is_valid : Config → ℕ → Certificate → Certificate × Bool
  is_valid config now c =
      let (c1, collected) = collect_cert_full_chain config c in
      if not collected
      then (c1, false)
      else let (c2, loaded) = load_certs c1 in
        if not loaded then (c2, false) else (c2, false_on_throw (verify_cert_chain now c2))

  unfoldable pub map_hashes : Map Cert → List Cert → Map Cert
  map_hashes certs [] = certs
  map_hashes certs (c ∷ chain) = map_hashes (Map.set certs (key_hash c) c) chain

  unfoldable pub get_public_key_hash : Certificate → Certificate × Option (List Text)
  unfolding map_hashes
  get_public_key_hash c = elim c.full_chain [
    | [] ↦ (c, none)
    | root ∷ chain ↦ (
      record c { full_chain_map = map_hashes c.full_chain_map (root ∷ chain) },
      some (map key_hash (root ∷ chain)),
    )
  ]

  unfoldable pub find_cert : Map Cert → Text → Found Cert
  unfolding member
  find_cert certs key = member certs key
