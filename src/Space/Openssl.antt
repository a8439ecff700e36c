-- ===== src/Space/Openssl.antt =====
-- The openssl commands of dashboard/SpaceService/server.mjs.
use otmc_broker.Prelude.{Text, codes, List, [], ◌∷◌, ◌++◌}

abbrev pub client_root : Text
client_root = codes "/usr/local/etc/certs/client_cert"

abbrev pub temp_dir : Text
temp_dir = codes "/var/run/otmc"

abbrev pub sign_key_path : Text
sign_key_path = client_root ++ codes "/client-broker-inter.key"

abbrev pub sign_ca_path : Text
sign_ca_path = client_root ++ codes "/client-broker-inter.crt"

abbrev pub sign_srl_path : Text
sign_srl_path = client_root ++ codes "/client-space-top.srl"

abbrev pub sign_ext_path : Text
sign_ext_path = client_root ++ codes "/client-space-top.ext"

-- The four commands, each with the path of the request or of the response.
pub data Command : Type 0 where
  verify : Text → Command
  show_subject : Text → Command
  sign : Text → Text → Command
  describe : Text → Command

-- What is given to `execFile`, after 'openssl'.
unfoldable pub arguments : Command → List Text
arguments (verify csr_path) =
    codes "req" ∷ codes "-in" ∷ csr_path ∷ codes "-noout" ∷ codes "-verify" ∷ []
arguments (show_subject csr_path) =
    codes "req"
    ∷ codes "-in"
    ∷ csr_path
    ∷ codes "-noout"
    ∷ codes "-subject"
    ∷ codes "-nameopt"
    ∷ codes "RFC2253"
    ∷ []
arguments (sign csr_path crt_path) =
    codes "x509"
    ∷ codes "-req"
    ∷ codes "-in"
    ∷ csr_path
    ∷ codes "-CA"
    ∷ sign_ca_path
    ∷ codes "-CAkey"
    ∷ sign_key_path
    ∷ codes "-CAserial"
    ∷ sign_srl_path
    ∷ codes "-CAcreateserial"
    ∷ codes "-sha384"
    ∷ codes "-days"
    ∷ codes "36500"
    ∷ codes "-extfile"
    ∷ sign_ext_path
    ∷ codes "-extensions"
    ∷ codes "v3_req"
    ∷ codes "-out"
    ∷ crt_path
    ∷ []
arguments (describe crt_path) =
    codes "x509"
    ∷ codes "-in"
    ∷ crt_path
    ∷ codes "-noout"
    ∷ codes "-serial"
    ∷ codes "-dates"
    ∷ codes "-issuer"
    ∷ []
