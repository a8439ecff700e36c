-- ===== src/Certificate/Signature.antt =====
-- `verifySignature` and `verifySignatureSingle` of Nodejs_Broker/client_certificate_.mjs.
pub mod Checked
pub mod Proof
pub mod Complete
pub mod Possession
use otmc_broker.Prelude.{
  ℕ, suc, ◌+◌, ◌-◌, ◌*◌, Text, codes, Bool, true, false, not, List, [], ◌∷◌, Option, none, some,
  ltb, if◌then◌else◌,
}
use otmc_broker.TextSet
use otmc_broker.TextSet.{TextSet}
use otmc_broker.Result.{Result, ok, err, type_error, library_error, ◌>>=◌}
use otmc_broker.Json.{
  Value, string, property, truthy, iterate, key_text, to_text, string_value, ◌or_else◌,
}
use otmc_broker.Collect.{Collector, has_challenge}
use otmc_broker.Runtime.{Runtime}
use otmc_broker.PlainObject.{Found, missing, inherited, found}
use otmc_broker.Certificate.{Certificate, find_cert}

abbrev pub max_time_diff_ms : ℕ
max_time_diff_ms = 1 * 60 * 1000

abbrev pub abs_diff : ℕ → ℕ → ℕ
abs_diff a b = (a - b) + (b - a)

-- `verifiedKeyAddresses.add(address)`: an address that is no text is equal to no hash, so `has` never
-- finds it, and it is left out.
unfoldable pub add_address : TextSet → Option Value → TextSet
add_address verified address = elim (string_value address) [
  | none ↦ verified
  | some hash ↦ TextSet.add verified hash
]

-- Not too old, not too far ahead, and not NaN.
unfoldable pub is_recent : ℕ → Option ℕ → Bool
is_recent now none = false
is_recent now (some signed) = not (ltb max_time_diff_ms (abs_diff now signed))

-- `String(algorithm || 'sha256')`.
abbrev pub algorithm_text : Option Value → Text
algorithm_text algorithm = elim (algorithm or_else some (string (codes "sha256"))) [
  | none ↦ []
  | some v ↦ to_text v
]

-- The properties of a challenge that the loop passes on.
pub record Challenge : Type 0 where
  pub data_json : Option Value
  pub signature : Option Value
  pub algorithm : Option Value
  pub key_address : Option Value

unfoldable pub read_challenge : Value → Result Challenge
read_challenge challenge = do
  data_json ← property (some challenge) (codes "data")
  signature ← property (some challenge) (codes "signature")
  algorithm ← property (some challenge) (codes "algorithm")
  key_address ← property (some challenge) (codes "keyAddress")
  ok (record {
    data_json = data_json;
    signature = signature;
    algorithm = algorithm;
    key_address = key_address;
  })

module _ (r : Runtime) {Client : Type 0} (collect : Collector Client) where
  open r use {Cert, key_hash, stringify, to_date, to_lower_case, decode_base64, verify}

  -- A member that every object inherits has no public key: `verify` throws.
  abbrev pub verify_with : Found Cert → Text → Text → Text → Result Bool
  verify_with (found cert) algorithm text signature = verify algorithm text cert signature
  verify_with other algorithm text signature = err library_error

  abbrev pub stringify_data : Option Value → Text
  stringify_data none = []
  stringify_data (some v) = stringify v

  unfoldable pub check_signature :
      Option Value → Option Value → Option Value → Found Cert → Result Bool
  check_signature data_json signature_b64 algorithm cert = do
    signature ← decode_base64 signature_b64
    verify_with cert (to_lower_case (algorithm_text algorithm)) (stringify_data data_json) signature

  unfoldable pub verify_claim :
      Text → ℕ → Option Value → Option Value → Option Value → Found Cert → Result Bool
  unfolding is_recent check_signature
  verify_claim client_id now data_json signature_b64 algorithm cert = do
    challenge ← property data_json (codes "challenge")
    if not (has_challenge collect client_id (string_value challenge)) then ok false else do
      time_stamp ← property data_json (codes "timeStamp")
      if not (is_recent now (to_date time_stamp))
          then ok false
          else check_signature data_json signature_b64 algorithm cert

  unfoldable pub verify_signature_single :
      Text → ℕ → Option Value → Option Value → Option Value → Found Cert → Result Bool
  unfolding verify_claim
  verify_signature_single client_id now data_json signature_b64 algorithm missing = ok false
  verify_signature_single client_id now data_json signature_b64 algorithm cert =
      verify_claim client_id now data_json signature_b64 algorithm cert

  -- One challenge of the loop: the address, and whether the signature holds.
  unfoldable pub verify_challenge : Certificate r → ℕ → Value → Result (Option Value × Bool)
  unfolding read_challenge find_cert verify_signature_single
  verify_challenge c now challenge = do
    fields ← read_challenge challenge
    valid ←
        verify_signature_single c.client_id now fields.data_json fields.signature fields.algorithm
          (find_cert r c.full_chain_map (key_text fields.key_address))
    ok (fields.key_address, valid)

  -- The clock is read anew in each round: `clock i` in round i.
  unfoldable pub verify_loop : Certificate r → (ℕ → ℕ) → ℕ → TextSet → List Value → Result TextSet
  unfolding add_address
  verify_loop c clock i verified [] = ok verified
  verify_loop c clock i verified (challenge ∷ rest) = do
    (key_address, valid) ← verify_challenge c (clock i) challenge
    verify_loop c clock (suc i) (if valid then add_address verified key_address else verified) rest

  -- `none` is the `false` that is returned for an empty chain.
  unfoldable pub verify_signature : Certificate r → (ℕ → ℕ) → Option Value → Result (Option TextSet)
  verify_signature c clock challenges = elim c.full_chain [
    | [] ↦ ok none
    | root ∷ chain ↦ do
      list ← iterate challenges
      verified ← verify_loop c clock 0 [] list
      ok (some verified)
  ]
