-- ===== src/Examples/Signing.antt =====
-- Requests to the service that signs certificates.
use otmc_broker.Prelude.{
  Text, codes, text_eq, List, [], ◌∷◌, ◌++◌, Option, some, true, ◌≡◌, ◌⊎◌, refl, All,
}
use otmc_broker.Map.{Map}
use otmc_broker.Result.{Result, ok, err, library_error}
use otmc_broker.Json.{Value, string, object, field, end}
use otmc_broker.Space.Openssl.{arguments}
use otmc_broker.Space.{Profile, State, System, readable, common_name_of, handle_request}
use otmc_broker.Space.Permits.{IsNoSign, IsPermitted, Asks, handle_request-signs}
use otmc_broker.Space.Cleaned.{IsClean, handle_request-IsClean}

abbrev csr : Text
csr = codes "request"

abbrev name : Text
name = codes "OTMC-Client_Intermediate_4_Space_1st_level_Cert"

-- openssl accepts the request and shows a subject with an organisation behind the name.
abbrev answer : List Text → Map Text → Result Text × Map Text
answer (first ∷ arguments) files = (ok (codes "subject=CN=" ++ name ++ codes ",O=x"), files)
answer [] files = (err library_error, files)

abbrev system : System
system = record {
  sha256_hex = λ t. codes "0a";
  make_folder = λ path. ok tt;
  write_file = λ path text. ok tt;
  remove_file = λ path. ok tt;
  openssl = answer;
}

abbrev body : Option Value
body = some (
    object (
      field (codes "csr") (string csr)
        (field (codes "profile") (string (codes "space-1st-level")) end)))

abbrev idle : State
idle = record { files = []; ran = [] }

handle_request-signs_example :
    All IsNoSign (handle_request system (readable true body) idle).1.ran
    ⊎ ((csr : Text) × (p : Profile) × Asks (readable true body) csr p
        × IsPermitted system csr p idle)
handle_request-signs_example = handle_request-signs system (readable true body) idle tt

handle_request-IsClean_example :
    IsClean system csr (handle_request system (readable true body) idle).1
unfolding otmc_broker.Json.property otmc_broker.Json.truthy otmc_broker.Json.field_value text_eq
handle_request-IsClean_example = handle_request-IsClean system (λ path. refl) body csr idle refl

-- The first `CN=` of the text counts, wherever it stands.
name_in_organisation : common_name_of (codes "subject=O=CN=" ++ name ++ codes ",CN=x") ≡ some name
unfolding common_name_of
name_in_organisation = refl

-- A name at the end of the subject takes the line end along.
name_at_end :
    common_name_of (codes "subject=O=x,CN=" ++ name ++ b'\n' ∷ []) ≡ some (name ++ b'\n' ∷ [])
unfolding common_name_of
name_at_end = refl
