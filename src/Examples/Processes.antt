-- ===== src/Examples/Processes.antt =====
-- A process with alice on socket 1, who is authenticated, and bob on socket 2, who is not.
use otmc_broker.Prelude.{
  ℕ, Text, codes, is_empty, true, false, List, [], ◌∷◌, ◌++◌, map, none, some, ◌==◌, ◌≡◌, ◌≢◌, ◌↔◌,
  inl, inr, refl, if◌then◌else◌,
}
use otmc_broker.Map.Keys.{IsDistinct}
use otmc_broker.Result.{ok}
use otmc_broker.Acl.{AclConfig, all, read, get_acl}
use otmc_broker.Topics.{get_subscriptions}
use otmc_broker.Packet.{Publish, Subscription, Reply, success, not_authorized}
use otmc_broker.World.{World, write, client_id, has_acl}
use otmc_broker.Session.{Arrival, parse}
use otmc_broker.Session.Access.{is_writable, may_access}
use otmc_broker.Session.Subscribe.{NoAcl, handle_subscribe}
use otmc_broker.Session.Subscribe.Grants.{code_for, with_all, handle_subscribe_lem}
use otmc_broker.Session.Publish.{handle_publish}
use otmc_broker.Session.Publish.Effects.{deliveries, ack_for, extend, handle_publish_lem}
use otmc_broker.Server.{closed, failed, running, on_gone, step}
use otmc_broker.Server.Cleanup.{IsGone, SameClient, on_gone-IsGone}
use otmc_broker.Server.Crash.{Crashed, crash_iff}
use otmc_broker.Examples.Setup.{runtime, config, connected, alice, bob}

abbrev acl : AclConfig
acl =
    record { topic = codes "k0/#"; action = read }
    ∷ record { topic = codes "k0/k1/#"; action = all }
    ∷ []

abbrev online : World
online = record connected {
  acls = (alice, acl) ∷ [];
  subscriptions = (codes "k0/#", bob ∷ alice ∷ []) ∷ [];
  sessions = λ s.
      if s == 1
      then record { client_id = alice; has_acl = true }
      else record { client_id = bob; has_acl = false };
}

abbrev packet : Publish
packet = record { topic = codes "k0/k1/door"; payload = codes "open"; qos = 1; message_id = some 7 }

authorized : get_acl online.acls alice ≡ some acl
unfolding get_acl otmc_broker.Map.get otmc_broker.Prelude.text_eq
authorized = refl

handle_publish_lem_example : handle_publish 1 packet online ≡ (
  ok tt,
  extend online (
      if may_access is_writable acl packet.topic
      then deliveries online.collect packet.topic packet.payload
          (get_subscriptions online.subscriptions packet.topic)
        ++ ack_for 1 packet success
      else ack_for 1 packet not_authorized),
)
handle_publish_lem_example = handle_publish_lem 1 packet online acl refl authorized

published :
    (handle_publish 1 packet online).1.output
    ≡ write 2 (Reply.forward (codes "k0/k1/door") (codes "open"))
      ∷ write 1 (Reply.forward (codes "k0/k1/door") (codes "open"))
      ∷ write 1 (Reply.puback 7 success)
      ∷ []
unfolding handle_publish otmc_broker.Session.Subscribe.acl_of get_acl otmc_broker.Map.get
    otmc_broker.Prelude.text_eq may_access otmc_broker.Topic.match_topic
    otmc_broker.Topic.match_levels otmc_broker.Prelude.split
    otmc_broker.Session.Publish.forward_message otmc_broker.Session.Publish.forward_to
    get_subscriptions otmc_broker.Topics.math_pattern_subscriptions
    otmc_broker.Topics.pattern_levels otmc_broker.Collect.get_client
    otmc_broker.Session.Publish.acknowledge
published = refl

no_acl : NoAcl online 2
no_acl = inl refl

abbrev wanted : List Subscription
wanted = record { topic = codes "k0/+/x"; qos = 1 } ∷ record { topic = codes "#"; qos = 0 } ∷ []

handle_subscribe_lem_example : handle_subscribe 1 5 wanted online ≡ (
  ok tt,
  record online {
    subscriptions = with_all acl alice online.subscriptions wanted;
    output = online.output ++ write 1 (Reply.suback 5 (map (code_for acl) wanted)) ∷ [];
  },
)
handle_subscribe_lem_example = handle_subscribe_lem 1 acl online 5 wanted refl authorized

one_filter : IsDistinct online.subscriptions
unfolding otmc_broker.Map.has otmc_broker.Map.get
one_filter = (refl, tt)

on_gone-IsGone_example :
    let (result, w') = on_gone 1 online in
    (result ≡ ok tt)
    × IsGone w' alice
    × ((j : Text) → j ≢ alice → SameClient online w' j)
    × (client_id w' 1 ≡ [])
    × (w'.output ≡ online.output)
on_gone-IsGone_example = on_gone-IsGone 1 online refl refl one_filter

crash_iff_example :
    (Crashed (step runtime config (running online) (closed 2))
      ↔ ((is_empty (client_id online 2) ≡ false) × (has_acl online 2 ≡ false)))
    × (step runtime config (running online) (failed 2)
        ≡ step runtime config (running online) (closed 2))
crash_iff_example = crash_iff runtime config online 2
