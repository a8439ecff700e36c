-- ===== src/Examples/Clients.antt =====
-- The test client with the certificates 1 and 2 at a broker.
use otmc_broker.Prelude.{
  Text, codes, text_eq, true, List, [], ◌∷◌, ◌++◌, none, some, ◌≡◌, refl, All, join, if◌then◌else◌,
}
use otmc_broker.TextSet
use otmc_broker.TextSet.{TextSet}
use otmc_broker.Result.{ok}
use otmc_broker.Json.{Value, string}
use otmc_broker.Runtime.{Runtime}
use otmc_broker.Topic.{slash}
use otmc_broker.Topic.Path.{IsPlain}
use otmc_broker.Acl.{last_3, get_acl_config}
use otmc_broker.Certificate.Signature.{is_recent}
use otmc_broker.Packet.{Reply, buffer, continue_auth}
use otmc_broker.World.{World, start, write}
use otmc_broker.Session.Access.{is_readable, is_writable, may_access}
use otmc_broker.Session.Auth.{accept, handle_auth}
use otmc_broker.Session.Auth.Grant.{hashed}
use otmc_broker.Session.Connect.{broker_id, handle_connect}
use otmc_broker.MtlsClient
use otmc_broker.MtlsClient.{
  Holder, Answer, challenge_msg, signed_msg, challenged_msg, message_for, parse_space_info,
  sub_topic_3, pub_topic_1,
}
use otmc_broker.MtlsClient.Exchange.{IsSound, received, exchange_admits}
use otmc_broker.MtlsClient.Topics.{own_topics}
use otmc_broker.Examples.Setup.{
  runtime, config, clock, random, alice, pem_of, key_of, key_of-IsPlain,
}

abbrev holder : Holder
holder = record { cert = pem_of 2 ++ pem_of 1; sign = λ t. key_of 2; key_address = key_of 2 }

abbrev time_stamp : Text
time_stamp = codes "1970"

abbrev sent : Value
sent = challenged_msg holder (signed_msg holder (challenge_msg (codes "c1") time_stamp) (key_of 2))

abbrev with_json : Runtime
with_json = record runtime {
  parse_json = λ t. if text_eq t (codes "{}") then some sent else none;
  stringify = λ v. codes "{}";
  to_date = λ v. some 1000;
}

abbrev id : Text
id = broker_id alice random

sound : IsSound with_json config holder clock id
unfolding otmc_broker.Certificate.is_valid otmc_broker.Certificate.collect_cert_full_chain
    otmc_broker.Pem.split_cert_chain TextSet.add otmc_broker.Certificate.load_certs
    otmc_broker.Json.optional_text otmc_broker.Certificate.init otmc_broker.Json.to_text
    otmc_broker.Map.has otmc_broker.Map.get otmc_broker.Map.set text_eq TextSet.has
    otmc_broker.Certificate.verify_cert_chain otmc_broker.Certificate.get_public_key_hash
sound = record {
  has_cert = refl;
  valid = refl;
  own = 2;
  in_chain = refl;
  signs = λ t. (key_of 2, refl, refl);
}

recent : is_recent (clock.challenge_now 0) (some 1000) ≡ true
unfolding is_recent
recent = refl

parses :
    with_json.parse_json
      (with_json.stringify (message_for with_json holder random.challenge time_stamp))
    ≡ some (message_for with_json holder random.challenge time_stamp)
unfolding text_eq message_for challenged_msg
parses = refl

exchange_admits_example :
    (w1 : World) × (answer : Answer) × (verified : TextSet) × (handle_connect 1 alice random start
      ≡ (ok tt, w1))
    × (w1.output ≡ [] ++ write 1 (Reply.auth continue_auth (codes "certchain") (codes "c1")) ∷ [])
    × (MtlsClient.handle_auth with_json holder time_stamp (some (buffer (codes "c1")))
        ≡ some answer)
    × (handle_auth with_json config 1 clock (some (received answer)) w1
        ≡ accept 1
            (get_acl_config
              (hashed with_json config clock (some (string holder.cert)) id).1
              (some verified))
            w1)
    × (TextSet.has verified (key_of 2) ≡ true)
exchange_admits_example =
    exchange_admits with_json config holder start 1 alice random clock time_stamp sound (λ e. cc)
      recent parses

abbrev hashes : List Text
hashes = key_of 0 ∷ key_of 1 ∷ key_of 2 ∷ []

plain : All IsPlain hashes
plain = (key_of-IsPlain 0, (key_of-IsPlain 1, (key_of-IsPlain 2, tt)))

last_3-hashes : last_3 hashes ≡ hashes
unfolding last_3
last_3-hashes = refl

has_leaf : TextSet.has (key_of 2 ∷ []) (key_of 2) ≡ true
unfolding TextSet.has text_eq
has_leaf = refl

own_topics_example :
    let acl = get_acl_config (some hashes) (some (key_of 2 ∷ [])) in
    let own = parse_space_info (some acl) in
    (own ≡ record {
      top_space = some (key_of 0);
      leaf_space = some (join slash hashes);
      mid_space = some (join slash (key_of 0 ∷ key_of 1 ∷ []));
    })
    × (may_access is_readable acl (sub_topic_3 own) ≡ true)
    × (may_access is_writable acl (pub_topic_1 own) ≡ true)
own_topics_example =
    own_topics hashes (key_of 2 ∷ []) (key_of 0) (key_of 1) (key_of 2) plain last_3-hashes has_leaf
