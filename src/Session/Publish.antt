-- ===== src/Session/Publish.antt =====
-- `handlePublish`, `sendPuback`, `sendPubrec`, `forwardMessage` and `handlePingreq` of
-- Nodejs_Broker/client_session.mjs.
pub mod Effects
use otmc_broker.Prelude.{
  ℕ, Text, Bool, true, false, not, List, [], ◌∷◌, Option, none, some, ◌==◌, if◌then◌else◌,
}
use otmc_broker.Collect.{get_client}
use otmc_broker.Topics.{get_subscriptions}
use otmc_broker.Packet.{Reply, Publish, success, not_authorized}
use otmc_broker.World.{World, Exec, ◌>>=◌, ◌>>◌, pure, gets, write_to}
use otmc_broker.Session.Access.{is_writable, may_access}
use otmc_broker.Session.Subscribe.{acl_of}

unfoldable pub send_puback : ℕ → Option ℕ → ℕ → Exec (Unit {0})
send_puback socket none reason_code = pure tt
send_puback socket (some message_id) reason_code =
    write_to socket (Reply.puback message_id reason_code)

unfoldable pub send_pubrec : ℕ → Option ℕ → ℕ → Exec (Unit {0})
send_pubrec socket none reason_code = pure tt
send_pubrec socket (some message_id) reason_code =
    write_to socket (Reply.pubrec message_id reason_code)

-- The loop over the recipients: one without a client is passed over.
unfoldable pub forward_to : Text → Text → List Text → Exec (Unit {0})
forward_to topic payload [] = pure tt
forward_to topic payload (id ∷ ids) = do
  client ← gets λ w. get_client w.collect id
  elim client [ none ↦ pure tt | some target ↦ write_to target (Reply.forward topic payload) ]
  forward_to topic payload ids

unfoldable pub forward_message : Text → Text → Exec (Unit {0})
forward_message topic payload = do
  ids ← gets λ w. get_subscriptions w.subscriptions topic
  forward_to topic payload ids

-- The answer for the quality of service: PUBACK for 1, PUBREC for 2, nothing for 0.
unfoldable pub acknowledge : ℕ → Publish → ℕ → Exec (Unit {0})
unfolding send_puback send_pubrec
acknowledge socket packet reason_code =
    if packet.qos == 1
    then send_puback socket packet.message_id reason_code
    else if packet.qos == 2
    then send_pubrec socket packet.message_id reason_code
    else pure tt

unfoldable pub handle_publish : ℕ → Publish → Exec (Unit {0})
handle_publish socket packet = do
  acl ← acl_of socket
  if not (may_access is_writable acl packet.topic)
      then acknowledge socket packet not_authorized
      else do forward_message packet.topic packet.payload; acknowledge socket packet success

unfoldable pub handle_pingreq : ℕ → Exec (Unit {0})
handle_pingreq socket = write_to socket Reply.pingresp
