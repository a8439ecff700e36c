-- ===== src/Certificate/Signature/Checked.antt =====
-- A signature check of `verifySignatureSingle` that succeeds.
use otmc_broker.Prelude.{
  ℕ, Text, codes, Bool-cases, true, false, not, Option, some, ◌≡◌, inl, inr, refl, arith,
  if◌then◌else◌,
}
use otmc_broker.Map
use otmc_broker.Result.{Result, Result-cases, ok, err, ◌>>=◌}
use otmc_broker.Json.{Value, property, string_value}
use otmc_broker.Collect.{Collector, has_challenge}
use otmc_broker.Runtime.{Runtime}
use otmc_broker.PlainObject.{Found, missing, inherited, found}
use otmc_broker.Certificate.{find_cert}
use otmc_broker.Certificate.Signature.{
  is_recent, algorithm_text, stringify_data, verify_with, check_signature, verify_claim,
  verify_signature_single,
}

module _ (r : Runtime) where
  open r use {Cert}

  pub find_cert-found :
      (certs : Map.Map Cert) (key : Text) (cert : Cert)
      → find_cert r certs key ≡ found cert
      → Map.get certs key ≡ some cert
  unfolding find_cert
  find_cert-found certs key cert h = ground arith

module _ (r : Runtime) {Client : Type 0} (collect : Collector Client) where
  open r use {Cert, to_date, to_lower_case, decode_base64, verify}

  -- A signature check that succeeds, with the calls that it made.
  pub record Checked (client_id : Text) (now : ℕ) (data_json signature algorithm : Option Value)
      (place : Found Cert) : Type 0 where
    pub signed_challenge : Option Value
    pub time_stamp : Option Value
    pub signature_bytes : Text
    pub data_challenge : property data_json (codes "challenge") ≡ ok signed_challenge
    pub data_time : property data_json (codes "timeStamp") ≡ ok time_stamp
    pub pending : has_challenge collect client_id (string_value signed_challenge) ≡ true
    pub recent : is_recent now (to_date time_stamp) ≡ true
    pub decodes : decode_base64 signature ≡ ok signature_bytes
    pub verifies :
        verify_with r collect place
          (to_lower_case (algorithm_text algorithm))
          (stringify_data r collect data_json)
          signature_bytes
        ≡ ok true

  module _ (client_id : Text) (now : ℕ) (data_json signature algorithm : Option Value) where
    module _ (place : Found Cert) where
      after_recent :
          (signed stamp : Option Value)
          → property data_json (codes "challenge") ≡ ok signed
          → property data_json (codes "timeStamp") ≡ ok stamp
          → has_challenge collect client_id (string_value signed) ≡ true
          → is_recent now (to_date stamp) ≡ true
          → (b : Result Text) → decode_base64 signature ≡ b
          → (b >>= λ bytes.
              verify_with r collect place
                (to_lower_case (algorithm_text algorithm))
                (stringify_data r collect data_json)
                bytes)
            ≡ ok true
          → Checked client_id now data_json signature algorithm place
      after_recent signed stamp s t pending recent (err e) d h = absurd (cc)
      after_recent signed stamp s t pending recent (ok bytes) d h = record {
        signed_challenge = signed;
        time_stamp = stamp;
        signature_bytes = bytes;
        data_challenge = s;
        data_time = t;
        pending = pending;
        recent = recent;
        decodes = d;
        verifies = h;
      }

      after_stamp :
          (signed stamp : Option Value)
          → property data_json (codes "challenge") ≡ ok signed
          → property data_json (codes "timeStamp") ≡ ok stamp
          → has_challenge collect client_id (string_value signed) ≡ true
          → (if not (is_recent now (to_date stamp))
              then ok false
              else check_signature r collect data_json signature algorithm place)
            ≡ ok true
          → Checked client_id now data_json signature algorithm place
      unfolding check_signature
      after_stamp signed stamp s t pending h = elim (Bool-cases (is_recent now (to_date stamp))) [
        | inl recent ↦
            after_recent signed stamp s t pending recent (decode_base64 signature) refl
              (rw recent at h)
        | inr old ↦ absurd (ground arith)
      ]

      -- The calls of a signature check that succeeds.
      pub verify_claim-Checked :
          verify_claim r collect client_id now data_json signature algorithm place ≡ ok true
          → Checked client_id now data_json signature algorithm place
      unfolding verify_claim
      verify_claim-Checked h = elim (Result-cases (property data_json (codes "challenge"))) [
        | inr (e, s) ↦ absurd (ground arith)
        | inl (signed, s) ↦
            elim (Bool-cases (has_challenge collect client_id (string_value signed))) [
              | inr wrong ↦ absurd (ground arith)
              | inl pending ↦ elim (Result-cases (property data_json (codes "timeStamp"))) [
                | inr (e, t) ↦ absurd (ground arith)
                | inl (stamp, t) ↦ after_stamp signed stamp s t pending (ground arith)
              ]
            ]
      ]

    pub single-Checked :
        (place : Found Cert)
        → verify_signature_single r collect client_id now data_json signature algorithm place
          ≡ ok true
        → (cert : Cert) × (place ≡ found cert)
          × Checked client_id now data_json signature algorithm (found cert)
    unfolding verify_signature_single
    single-Checked missing h = absurd (cc)
    single-Checked inherited h = absurd (cc (verify_claim-Checked inherited h).verifies)
    single-Checked (found cert) h = (cert, refl, verify_claim-Checked (found cert) h)
