-- ===== src/Runtime.antt =====
-- What client_certificate_.mjs uses of Node: certificates of `crypto`, `bs58`, `Date` and `JSON`.
use otmc_broker.Prelude.{ℕ, Text, Bool, Option}
use otmc_broker.Result.{Result}
use otmc_broker.Json.{Value}

-- Times are milliseconds from the earliest date that `Date` has.
pub record Runtime : Type 1 where
  -- `crypto.X509Certificate`.
  pub Cert : Type 0
  -- `new X509Certificate(pem)`; `none` if it throws.
  pub parse_cert : Text → Option Cert
  pub fingerprint : Cert → Text
  pub subject : Cert → Text
  pub issuer : Cert → Text
  -- `child.checkIssued(parent)`.
  pub check_issued : Cert → Cert → Bool
  pub valid_from : Cert → ℕ
  pub valid_to : Cert → ℕ
  -- Base58 of SHA-256 over the public key's SPKI DER.
  pub key_hash : Cert → Text
  -- `JSON.parse`; `none` if it throws.
  pub parse_json : Text → Option Value
  pub stringify : Value → Text
  -- `new Date(v)`; `none` for an invalid date.
  pub to_date : Option Value → Option ℕ
  pub to_lower_case : Text → Text
  -- `Buffer.from(v, 'base64')`.
  pub decode_base64 : Option Value → Result Text
  -- `crypto.createVerify(algorithm)`, `update(text)`, `verify(cert.publicKey, signature)`.
  pub verify : Text → Text → Cert → Text → Result Bool
