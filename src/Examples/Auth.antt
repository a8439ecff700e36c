-- ===== src/Examples/Auth.antt =====
-- `handleAuth` on a signed and on an unsigned packet.
use otmc_broker.Prelude.{
  ℕ, Text, codes, true, false, List, [], ◌∷◌, ◌++◌, map, Option, none, some, ◌≡◌, ◌≢◌, ◌⊎◌, refl,
  get_elem?, length, All,
}
use otmc_broker.TextSet
use otmc_broker.Result.{ok}
use otmc_broker.Json.{Value, string, array, nil, cons, property, iterate}
use otmc_broker.Certificate
use otmc_broker.Certificate.{Certificate, is_valid, get_public_key_hash}
use otmc_broker.Certificate.Chain.Valid.{IsTrusted, is_valid-IsTrusted}
use otmc_broker.Certificate.Signature.{verify_signature}
use otmc_broker.Certificate.Signature.Possession.{SomePossesses, verified_is_possessed}
use otmc_broker.Acl.{read, all, AclEntry, AclConfig, last_3}
use otmc_broker.Session.Auth.{client_cert_of, accept, handle_auth}
use otmc_broker.Session.Auth.Grant.{
  Admits, EndsFor, after_reject, auth_json, checked, hashed, handle_auth-Ends,
}
use otmc_broker.Session.Auth.Rights.{IsProved, all-Proves, checked_fresh, unsigned_is_admitted}
use otmc_broker.Examples.Setup.{
  runtime, config, clock, connected, properties, challenge, signed, unsigned, alice, pem_of, key_of,
}

abbrev client_cert : Option Value
client_cert = some (string (pem_of 2 ++ pem_of 1))

abbrev presented : Certificate runtime
presented = Certificate.init runtime client_cert alice

valid : (is_valid runtime config 2000 presented).1 ≡ true
unfolding is_valid Certificate.collect_cert_full_chain otmc_broker.Pem.split_cert_chain TextSet.add
    Certificate.load_certs otmc_broker.Json.optional_text Certificate.init otmc_broker.Json.to_text
    otmc_broker.Map.has otmc_broker.Map.get otmc_broker.Map.set otmc_broker.Prelude.text_eq
    TextSet.has Certificate.verify_cert_chain
valid = refl

is_valid-IsTrusted_example :
    IsTrusted runtime config 2000 presented.client_cert
      (is_valid runtime config 2000 presented).0.full_chain
is_valid-IsTrusted_example = is_valid-IsTrusted runtime config 2000 presented valid

abbrev holder : Certificate runtime
holder = (hashed runtime config clock client_cert alice).0

abbrev challenges : Option Value
challenges = some (array (cons challenge nil))

verified_once :
    verify_signature runtime connected.collect holder clock.challenge_now challenges
    ≡ ok (some (key_of 2 ∷ []))
unfolding verify_signature Certificate.get_public_key_hash is_valid
    Certificate.collect_cert_full_chain otmc_broker.Pem.split_cert_chain TextSet.add
    Certificate.load_certs otmc_broker.Json.optional_text Certificate.init otmc_broker.Json.to_text
    otmc_broker.Map.has otmc_broker.Map.get otmc_broker.Map.set otmc_broker.Prelude.text_eq
    TextSet.has iterate otmc_broker.Certificate.Signature.verify_loop
    otmc_broker.Certificate.Signature.verify_challenge otmc_broker.Collect.has_challenge property
    otmc_broker.Json.truthy Certificate.verify_cert_chain otmc_broker.Json.key_text
    otmc_broker.Json.field_value
verified_once = refl

has_key : TextSet.has (key_of 2 ∷ []) (key_of 2) ≡ true
unfolding TextSet.has otmc_broker.Prelude.text_eq
has_key = refl

abbrev unhashed : Certificate runtime
unhashed = (checked runtime config clock client_cert alice).0

verified_is_possessed_example :
    (list : List Value) × (iterate challenges ≡ ok list)
    × SomePossesses runtime connected.collect
        (get_public_key_hash runtime unhashed).0
        clock.challenge_now
        (key_of 2)
        list
verified_is_possessed_example =
    verified_is_possessed runtime connected.collect unhashed clock.challenge_now challenges
      (key_of 2 ∷ []) (key_of 2) (checked_fresh runtime config clock client_cert alice)
      verified_once has_key

abbrev top : AclEntry
top = record { topic = codes "k0/k1/k2/#"; action = all }

abbrev granted : AclConfig
granted =
    record { topic = codes "k0/#"; action = read }
    ∷ record { topic = codes "k0/k1/#"; action = read }
    ∷ top
    ∷ []

admitted : Admits runtime config connected clock (some signed) client_cert alice granted
unfolding is_valid property otmc_broker.Json.field_value otmc_broker.Prelude.text_eq
    otmc_broker.Acl.get_acl_config Certificate.get_public_key_hash
    Certificate.collect_cert_full_chain otmc_broker.Pem.split_cert_chain TextSet.add
    Certificate.load_certs otmc_broker.Json.optional_text Certificate.init otmc_broker.Json.to_text
    otmc_broker.Map.has otmc_broker.Map.get otmc_broker.Map.set TextSet.has
admitted = record {
  valid = valid;
  challenges = challenges;
  has_challenges = refl;
  verified = some (key_of 2 ∷ []);
  verifies = verified_once;
  acl_is = refl;
}

some_hash : (n : ℕ) → key_of n ≢ []
some_hash n e = cc

all-Proves_example : IsProved runtime config connected 1 clock (some signed) client_cert 2 top
all-Proves_example =
    all-Proves runtime config connected 1 clock (some signed) client_cert some_hash granted 2 top
      admitted refl refl

handle_auth-Ends_example :
    ((auth_json runtime config (some (properties (codes "signed"))) ≡ none)
      × (handle_auth runtime config 1 clock (some (properties (codes "signed"))) connected
          ≡ (ok tt, after_reject 1 connected)))
    ⊎ ((json : Value) × (auth_json runtime config (some (properties (codes "signed"))) ≡ some json)
        × EndsFor runtime config connected 1 clock json
            (handle_auth runtime config 1 clock (some (properties (codes "signed"))) connected))
handle_auth-Ends_example =
    handle_auth-Ends runtime config connected 1 clock (some (properties (codes "signed")))

parsed : auth_json runtime config (some (properties (codes "unsigned"))) ≡ some unsigned
unfolding otmc_broker.Prelude.text_eq
parsed = refl

certified : client_cert_of (some unsigned) ≡ ok client_cert
unfolding client_cert_of property otmc_broker.Json.truthy otmc_broker.Json.field_value
    otmc_broker.Prelude.text_eq
certified = refl

empty : property (some unsigned) (codes "challenges") ≡ ok (some (array nil))
unfolding property otmc_broker.Json.field_value otmc_broker.Prelude.text_eq
empty = refl

unsigned_is_admitted_example :
    (hashes : List Text) × (acl : AclConfig) × ((hashed runtime config clock client_cert alice).1
      ≡ some hashes)
    × (handle_auth runtime config 1 clock (some (properties (codes "unsigned"))) connected
        ≡ accept 1 acl connected)
    × (length acl ≡ length (last_3 hashes))
    × All (λ e. e.action ≡ read) acl
unsigned_is_admitted_example =
    unsigned_is_admitted runtime config connected 1 clock (properties (codes "unsigned")) unsigned
      client_cert parsed certified empty valid
