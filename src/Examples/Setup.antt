-- ===== src/Examples/Setup.antt =====
-- A runtime with four certificates and their keys, the configuration and a client's packets for it.
use otmc_broker.Prelude.{
  String, arith, ℕ, zero, suc, ◌+◌, ◌-◌, Text, codes, text_eq, false, [], ◌∷◌, ◌++◌, Option, none,
  some, get_elem?, ◌==◌, if◌then◌else◌,
}
use otmc_broker.Result.{Result, ok, err, type_error}
use otmc_broker.Json.{Value, number, string, array, object, nil, cons, end, field}
use otmc_broker.Pem.{begin_marker, end_marker}
use otmc_broker.Topic.Path.{IsPlain}
use otmc_broker.Runtime.{Runtime}
use otmc_broker.Certificate.{Config}
use otmc_broker.Packet.{AuthProperties, text}
use otmc_broker.Session.Connect.{Random}
use otmc_broker.Session.Auth.{Clock}
use otmc_broker.World.{World, start}

-- Certificate n + 1 was issued by certificate n, and 0 by itself.
abbrev pub issuer_of : ℕ → Text
issuer_of zero = codes "n" ++ 0 ∷ []
issuer_of (suc n) = codes "n" ++ n ∷ []

abbrev pub key_of : ℕ → Text
key_of n = 107 ∷ (48 + n) ∷ []

abbrev pub pem_of : ℕ → Text
pem_of n = begin_marker ++ (48 + n) ∷ end_marker

-- The digit behind the BEGIN marker.
abbrev pub parse_pem : Text → Option ℕ
parse_pem pem = elim (get_elem? pem 27) [ none ↦ none | some d ↦ some (d - 48) ]

-- What the client with the certificates 1 and 2 sends, with the given challenges.
abbrev pub message : Value → Value
message challenges = object (
    field (codes "cert") (string (pem_of 2 ++ pem_of 1))
      (field (codes "challenges") challenges end))

abbrev pub signed_data : Value
signed_data = object (
    field (codes "challenge") (string (codes "c1"))
      (field (codes "timeStamp") (number (codes "1000")) end))

abbrev pub challenge : Value
challenge = object (
    field (codes "data") signed_data (
      field (codes "signature") (string (key_of 2))
        (field (codes "keyAddress") (string (key_of 2)) end)))

abbrev pub signed : Value
signed = message (array (cons challenge nil))

abbrev pub unsigned : Value
unsigned = message (array nil)

abbrev pub endpoint : String → String → Value
endpoint host port =
    object
      (field (codes "host") (string (codes host)) (field (codes "port") (number (codes port)) end))

abbrev pub time_of : Option Value → Option ℕ
time_of (some (number t)) = some 1000
time_of v = none

abbrev pub text_of : Option Value → Result Text
text_of (some (string t)) = ok t
text_of v = err type_error

-- A key's signature is its hash.
abbrev pub runtime : Runtime
runtime = record {
  Cert = ℕ;
  parse_cert = parse_pem;
  fingerprint = λ c. c ∷ [];
  subject = λ c. codes "n" ++ c ∷ [];
  issuer = issuer_of;
  check_issued = λ child parent. text_eq (issuer_of child) (codes "n" ++ parent ∷ []);
  valid_from = λ c. 0;
  valid_to = λ c. 5000;
  key_hash = key_of;
  parse_json = λ t.
      if text_eq t (codes "signed")
      then some signed
      else if text_eq t (codes "unsigned")
      then some unsigned
      else if text_eq t (codes "endpoints")
      then some (array (cons (endpoint "a" "1") (cons (endpoint "b" "2") nil)))
      else none;
  stringify = λ v. codes "{}";
  to_date = time_of;
  to_lower_case = λ t. t;
  decode_base64 = text_of;
  verify = λ algorithm t cert signature. ok (text_eq signature (key_of cert));
}

abbrev pub config : Config
config = record { ca_root = pem_of 0; ca_trusted = pem_of 0 }

abbrev pub clock : Clock
clock = record { chain_now = 2000; challenge_now = λ i. 2000 + i }

abbrev pub random : Random
random = record { id_suffix = codes "x"; broker_suffix = codes "y"; challenge = codes "c1" }

abbrev pub alice : Text
alice = codes "alice"

abbrev pub bob : Text
bob = codes "bob"

-- Socket 1 is alice's, with a pending challenge; socket 2 is bob's.
abbrev pub connected : World
connected = record start {
  collect = record {
    clients = (alice, 1) ∷ (bob, 2) ∷ [];
    challenges = (alice, codes "c1") ∷ (bob, codes "c2") ∷ [];
  };
  sessions = λ s.
      if s == 1
      then record { client_id = alice; has_acl = false }
      else if s == 2
      then record { client_id = bob; has_acl = false }
      else record { client_id = []; has_acl = false };
}

abbrev pub properties : Text → AuthProperties
properties payload = record {
  authentication_method = some (codes "certchain");
  authentication_data = some (text payload);
}

pub key_of-IsPlain : (n : ℕ) → IsPlain (key_of n)
key_of-IsPlain n = record {
  not_empty = λ e. cc;
  not_multi = λ e. cc;
  not_single = λ e. cc;
  no_slash = (λ e. omega (arith, e), (λ e. omega (arith, e), tt));
}
