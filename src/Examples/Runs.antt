-- ===== src/Examples/Runs.antt =====
-- A run of a process from its start: carol connects, is let in and subscribes, and another socket
-- connects.
use otmc_broker.Prelude.{
  text_eq, text_eq_iff, false, arith, Text, codes, true, List, [], ◌∷◌, some, ◌≡◌, ◌≢◌, refl,
}
use otmc_broker.TextSet
use otmc_broker.Topic.{levels}
use otmc_broker.Topic.Path.{IsUnder}
use otmc_broker.Topics.{get_subscriptions}
use otmc_broker.Acl.{AclConfig, read, all, get_acl}
use otmc_broker.Certificate.Chain.Valid.{IsTrusted}
use otmc_broker.Packet.{Packet, Subscription, connect, auth, subscribe}
use otmc_broker.World.{World, start}
use otmc_broker.Session.{Arrival}
use otmc_broker.Session.Access.{is_writable, may_access}
use otmc_broker.Session.Auth.Grant.{checked}
use otmc_broker.Collect.{get_client}
use otmc_broker.Session.Connect.{broker_id}
use otmc_broker.Server.Leak.{connects, second_connect_leaks}
use otmc_broker.Server.{Event, received, closed, running, run}
use otmc_broker.Server.Keeps.{world}
use otmc_broker.Server.Invariant.{IsValid, run-IsValid}
use otmc_broker.Server.Granted.{Grant, run-Grant}
use otmc_broker.Server.Confined.{Owns, run-Owns}
use otmc_broker.Server.Written.{Writer, run-Writer}
use otmc_broker.Examples.Setup.{runtime, config, clock, random, properties, key_of-IsPlain}

abbrev wanted : List Subscription
wanted = record { topic = codes "k0/+/x"; qos = 1 } ∷ record { topic = codes "#"; qos = 0 } ∷ []

abbrev arrival : Packet → Arrival
arrival packet = record { packet = packet; random = random; clock = clock }

abbrev events : List Event
events =
    received 1 (
      arrival (connect (codes "carol"))
      ∷ arrival (auth (some (properties (codes "signed"))))
      ∷ arrival (subscribe 5 wanted)
      ∷ [])
    ∷ received 2 (arrival (connect []) ∷ [])
    ∷ []

abbrev reached : World
reached = world (run runtime config (running start) events)

abbrev carol : Text
carol = codes "carol_broker_y"

abbrev granted : AclConfig
granted =
    record { topic = codes "k0/#"; action = read }
    ∷ record { topic = codes "k0/k1/#"; action = read }
    ∷ record { topic = codes "k0/k1/k2/#"; action = all }
    ∷ []

carol_acl : get_acl reached.acls carol ≡ some granted
unfolding run get_acl get_subscriptions may_access TextSet.has otmc_broker.Map.get
    otmc_broker.Map.set otmc_broker.Map.has otmc_broker.Server.step otmc_broker.Session.parse
    otmc_broker.Session.handle_packets otmc_broker.Session.handle_packet
    otmc_broker.Session.Connect.handle_connect otmc_broker.Session.Auth.handle_auth
    otmc_broker.Prelude.text_eq otmc_broker.Session.Auth.client_cert_of otmc_broker.Json.property
    otmc_broker.Session.Auth.check_chain otmc_broker.Session.Auth.accept
    otmc_broker.Session.Auth.length_is_zero otmc_broker.Certificate.is_valid
    otmc_broker.Certificate.collect_cert_full_chain otmc_broker.Pem.split_cert_chain TextSet.add
    otmc_broker.Certificate.load_certs otmc_broker.Certificate.verify_cert_chain
    otmc_broker.Certificate.init otmc_broker.Certificate.get_public_key_hash
    otmc_broker.Json.optional_text otmc_broker.Json.to_text otmc_broker.Json.iterate
    otmc_broker.Json.truthy otmc_broker.Json.key_text otmc_broker.Json.field_value
    otmc_broker.Certificate.Signature.verify_signature otmc_broker.Certificate.Signature.verify_loop
    otmc_broker.Certificate.Signature.verify_challenge otmc_broker.Collect.has_challenge
    otmc_broker.Acl.get_acl_config otmc_broker.Session.Subscribe.handle_subscribe
    otmc_broker.Session.Subscribe.subscribe_all otmc_broker.Session.Subscribe.subscribe_one
    otmc_broker.Session.Subscribe.acl_of otmc_broker.Topics.add_subscription
    otmc_broker.Topics.math_pattern_subscriptions otmc_broker.Topics.pattern_levels
    otmc_broker.Prelude.split otmc_broker.Topic.match_topic otmc_broker.Topic.match_levels
carol_acl = refl

carol_subscribed :
    TextSet.has (get_subscriptions reached.subscriptions (codes "k0/k1/x")) carol ≡ true
unfolding run get_acl get_subscriptions may_access TextSet.has otmc_broker.Map.get
    otmc_broker.Map.set otmc_broker.Map.has otmc_broker.Server.step otmc_broker.Session.parse
    otmc_broker.Session.handle_packets otmc_broker.Session.handle_packet
    otmc_broker.Session.Connect.handle_connect otmc_broker.Session.Auth.handle_auth
    otmc_broker.Prelude.text_eq otmc_broker.Session.Auth.client_cert_of otmc_broker.Json.property
    otmc_broker.Session.Auth.check_chain otmc_broker.Session.Auth.accept
    otmc_broker.Session.Auth.length_is_zero otmc_broker.Certificate.is_valid
    otmc_broker.Certificate.collect_cert_full_chain otmc_broker.Pem.split_cert_chain TextSet.add
    otmc_broker.Certificate.load_certs otmc_broker.Certificate.verify_cert_chain
    otmc_broker.Certificate.init otmc_broker.Certificate.get_public_key_hash
    otmc_broker.Json.optional_text otmc_broker.Json.to_text otmc_broker.Json.iterate
    otmc_broker.Json.truthy otmc_broker.Json.key_text otmc_broker.Json.field_value
    otmc_broker.Certificate.Signature.verify_signature otmc_broker.Certificate.Signature.verify_loop
    otmc_broker.Certificate.Signature.verify_challenge otmc_broker.Collect.has_challenge
    otmc_broker.Acl.get_acl_config otmc_broker.Session.Subscribe.handle_subscribe
    otmc_broker.Session.Subscribe.subscribe_all otmc_broker.Session.Subscribe.subscribe_one
    otmc_broker.Session.Subscribe.acl_of otmc_broker.Topics.add_subscription
    otmc_broker.Topics.math_pattern_subscriptions otmc_broker.Topics.pattern_levels
    otmc_broker.Prelude.split otmc_broker.Topic.match_topic otmc_broker.Topic.match_levels
carol_subscribed = refl

may_write : may_access is_writable granted (codes "k0/k1/k2/door") ≡ true
unfolding may_access otmc_broker.Topic.match_topic otmc_broker.Topic.match_levels
    otmc_broker.Prelude.split otmc_broker.Prelude.text_eq
may_write = refl

run-IsValid_example : IsValid reached
run-IsValid_example = run-IsValid runtime config events

run-Grant_example :
    (g : Grant runtime config events carol granted) × IsTrusted runtime config g.clock.chain_now
      g.client_cert
      (checked runtime config g.clock g.client_cert carol).0.full_chain
run-Grant_example = run-Grant runtime config events carol granted carol_acl

run-Owns_example :
    (h : Text) × Owns runtime config events carol h × IsUnder (h ∷ []) (levels (codes "k0/k1/x"))
run-Owns_example =
    run-Owns runtime config events key_of-IsPlain (codes "k0/k1/x") carol carol_subscribed

run-Writer_example : Writer runtime config events carol granted (codes "k0/k1/k2/door")
run-Writer_example =
    run-Writer runtime config events key_of-IsPlain carol (codes "k0/k1/k2/door") granted carol_acl
      may_write

text_ne : (a b : Text) → text_eq a b ≡ false → a ≢ b
text_ne a b h e = ground (arith, text_eq_iff a b)

no_match : text_eq (broker_id (codes "carol") random) (broker_id [] random) ≡ false
unfolding broker_id text_eq
no_match = refl

different : broker_id (codes "carol") random ≢ broker_id [] random
different = text_ne (broker_id (codes "carol") random) (broker_id [] random) no_match

second_connect_leaks_example :
    get_client
      (world (
        run runtime config (running start) (
          connects runtime config start 1 clock (codes "carol") random
          ∷ connects runtime config start 1 clock [] random
          ∷ closed 1
          ∷ []))).collect
      (broker_id (codes "carol") random)
    ≡ some 1
second_connect_leaks_example =
    second_connect_leaks runtime config start 1 clock (codes "carol") [] random random different
