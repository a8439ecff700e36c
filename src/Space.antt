-- ===== src/Space.antt =====
-- dashboard/SpaceService/server.mjs: the service that signs the certificates of spaces. Node's crypto and
-- file system and openssl are the parameter `System`, and so is the part of Express that reads a body.
pub mod Openssl
pub mod Permits
pub mod Cleaned
use otmc_broker.Prelude.{
  ℕ, Text, codes, text_eq, is_empty, Bool, true, false, not, ◌&&◌, ◌||◌, List, [], ◌∷◌, ◌++◌,
  Option, none, some, ltb, ◌==◌, if◌then◌else◌,
}
use otmc_broker.Map
use otmc_broker.Map.{Map}
use otmc_broker.Result.{Result, ok, err, type_error, library_error}
use otmc_broker.Json.{Value, string, object, end, property, truthy, key_text}
use otmc_broker.PlainObject.{Found, missing, inherited, found, member}
use otmc_broker.Capture.{capture}
use otmc_broker.Effect.{Effect, pure, lift, gets, modify, ◌>>=◌, ◌>>◌}
use otmc_broker.Space.Openssl.{
  temp_dir, sign_ca_path, Command, verify, show_subject, sign, describe, arguments,
}

-- An entry of `PROFILE`; `cnPattern` accepts one text.
pub record Profile : Type 0 where
  pub ca_name : Text
  pub common_name : Text
  pub ext_file : Text

unfoldable pub profiles : Map Profile
profiles =
    (
      codes "space-1st-level",
      record {
        ca_name = codes "client-broker-inter";
        common_name = codes "OTMC-Client_Intermediate_4_Space_1st_level_Cert";
        ext_file = codes "client-space-top.ext";
      },
    )
    ∷ []

pub data Reply : Type 0 where
  signed : (certificate chain serial not_before not_after issuer_cn request_id : Text) → Reply
  subject_policy_violation : Reply
  sign_failed : Reply
  not_found : Reply
  internal_error : (status : Text) → Reply

-- The files, and the commands that were run.
pub record State : Type 0 where
  pub files : Map Text
  pub ran : List Command

-- openssl gives its output or fails, and may change the files. `sha256_hex` is `update(…, 'utf8')` and
-- `digest('hex')` of SHA-256.
pub record System : Type 0 where
  pub sha256_hex : Text → Text
  pub make_folder : Text → Result (Unit {0})
  pub write_file : Text → Text → Result (Unit {0})
  pub remove_file : Text → Result (Unit {0})
  pub openssl : List Text → Map Text → Result Text × Map Text

abbrev pub file_or_throw : Option Text → Result Text
file_or_throw none = err library_error
file_or_throw (some text) = ok text

-- `fs.readFile`.
unfoldable pub read_file : Text → Effect State Text
read_file path s = (file_or_throw (Map.get s.files path), s)

-- `matchProfile.cnPattern.test(name)`, which throws if there is no pattern.
unfoldable pub test_name : Found Profile → Text → Result Bool
test_name missing name = err type_error
test_name inherited name = err type_error
test_name (found profile) name = ok (text_eq name profile.common_name)

-- `!cnMatch || !matchProfile.cnPattern.test(cnMatch[1])`.
unfoldable pub is_refused : Option Text → Found Profile → Result Bool
unfolding test_name
is_refused none profile = ok true
is_refused (some name) profile = elim (test_name profile name) [
  | ok right ↦ ok (not right)
  | err thrown ↦ err thrown
]

-- `.` of a regular expression, `[0-9A-F]` and `[^,]`.
abbrev pub is_no_line_end : ℕ → Bool
is_no_line_end c = not (c == 10 || c == 13 || c == 8232 || c == 8233)

abbrev pub is_hex : ℕ → Bool
is_hex c = (ltb 47 c && ltb c 58) || (ltb 64 c && ltb c 71)

abbrev pub is_no_comma : ℕ → Bool
is_no_comma c = not (c == b',')

abbrev pub group_or_empty : Option Text → Text
group_or_empty none = []
group_or_empty (some group) = group

-- `subjOut.match(/CN=([^,]+)/)`.
unfoldable pub common_name_of : Text → Option Text
unfolding capture
common_name_of subject = capture (codes "CN=") is_no_comma subject

-- `fs.rm(path, { force: true }).catch(…)`.
abbrev pub removed : Result (Unit {0}) → Text → State → State
removed (ok t) path s = record s { files = Map.delete s.files path }
removed (err thrown) path s = s

-- `req.body || {}`.
abbrev pub body_of : Option Value → Option Value
body_of body = if truthy body then body else some (object end)

abbrev pub profile_of : Result (Option Value) → Found Profile
profile_of (ok name) = member profiles (key_text name)
profile_of (err thrown) = missing

-- A request: the body as `express.json` reads it, or the status of its error, and whether the method and
-- the path are those of the route.
pub data Request : Type 0 where
  unreadable : (status : Text) → Request
  readable : (is_sign : Bool) (body : Option Value) → Request

module _ (system : System) where
  open system use {sha256_hex, make_folder, write_file, remove_file, openssl}

  abbrev pub run_folder : Text → Text
  run_folder csr = temp_dir ++ b'/' ∷ sha256_hex csr

  abbrev pub csr_path : Text → Text
  csr_path csr = run_folder csr ++ codes "/request_temp.csr"

  abbrev pub crt_path : Text → Text
  crt_path csr = run_folder csr ++ codes "/response_temp.crt"

  -- `exec('openssl', …)`.
  unfoldable pub exec : Command → Effect State Text
  unfolding arguments
  exec command s =
      let (output, files) = openssl (arguments command) s.files in
      (output, record { files = files; ran = s.ran ++ command ∷ [] })

  -- The rest of the `try` for a subject that is not refused.
  unfoldable pub issue : Text → Effect State Reply
  unfolding exec read_file
  issue csr = do
    output ← exec (sign (csr_path csr) (crt_path csr))
    certificate ← read_file (crt_path csr)
    ca_cert ← read_file sign_ca_path
    info ← exec (describe (crt_path csr))
    pure (
        signed certificate ca_cert (group_or_empty (capture (codes "serial=") is_hex info))
          (group_or_empty (capture (codes "notBefore=") is_no_line_end info))
          (group_or_empty (capture (codes "notAfter=") is_no_line_end info))
          (codes "OTMC-Client_Intermediate_4_Client_Broker_Inter_Cert") (sha256_hex csr))

  -- The rest of the `try` for a request that is written.
  unfoldable pub check_csr : Text → Found Profile → Effect State Reply
  unfolding exec issue is_refused common_name_of
  check_csr csr profile = do
    verified ← exec (verify (csr_path csr))
    subject ← exec (show_subject (csr_path csr))
    refused ← lift (is_refused (common_name_of subject) profile)
    if refused then pure subject_policy_violation else issue csr

  abbrev pub written : Text → State → State
  written csr s = record s { files = Map.set s.files (csr_path csr) csr }

  -- What is in the `try`.
  unfoldable pub try_sign : Text → Found Profile → Effect State Reply
  unfolding check_csr
  try_sign csr profile = do
    lift (make_folder (run_folder csr))
    lift (write_file (csr_path csr) csr)
    modify (written csr)
    check_csr csr profile

  abbrev pub clean : Text → State → State
  clean csr s =
      removed (remove_file (crt_path csr)) (crt_path csr)
        (removed (remove_file (csr_path csr)) (csr_path csr) s)

  -- `catch` and `finally`.
  abbrev pub finish : Text → Result Reply × State → Reply × State
  finish csr (ok reply, s) = (reply, clean csr s)
  finish csr (err thrown, s) = (sign_failed, clean csr s)

  -- From the hash on, which takes a text only.
  unfoldable pub sign_csr : Result (Option Value) → Found Profile → State → Reply × State
  unfolding try_sign
  sign_csr (ok (some (string csr))) profile s = finish csr (try_sign csr profile s)
  sign_csr other profile s = (internal_error (codes "500"), s)

  -- The handler of the route; Express turns a rejection into a call of the error handler.
  unfoldable pub handle_sign : Option Value → State → Reply × State
  unfolding sign_csr profiles member truthy
  handle_sign body s =
      sign_csr (property (body_of body) (codes "csr"))
        (profile_of (property (body_of body) (codes "profile"))) s

  unfoldable pub handle_request : Request → State → Reply × State
  unfolding handle_sign
  handle_request (unreadable status) s = (internal_error status, s)
  handle_request (readable true body) s = handle_sign body s
  handle_request (readable false body) s = (not_found, s)
