-- ===== src/Packet.antt =====
-- MQTT packets as mqtt-packet gives them to Nodejs_Broker/client_session.mjs and takes them from it,
-- with the constants of that file. Payloads are texts of bytes.
use otmc_broker.Prelude.{ℕ, Text, List, Option}
use otmc_broker.Acl.{AclConfig}

abbrev pub continue_auth : ℕ
continue_auth = 0x18

abbrev pub success : ℕ
success = 0x00

abbrev pub not_authorized : ℕ
not_authorized = 0x87

abbrev pub granted_not_authorized : ℕ
granted_not_authorized = 0x87

-- `authenticationData` with the text that `handleAuth` makes of it: a buffer is decoded, a text is
-- taken, anything else goes through `String`.
pub data AuthData : Type 0 where
  buffer text other : Text → AuthData

pub record AuthProperties : Type 0 where
  pub authentication_method : Option Text
  pub authentication_data : Option AuthData

pub record Publish : Type 0 where
  pub topic : Text
  pub payload : Text
  pub qos : ℕ
  pub message_id : Option ℕ

pub record Subscription : Type 0 where
  pub topic : Text
  pub qos : ℕ

-- Packets from a client. `connect` has an empty text for a missing client id, `auth` has `none` for
-- missing properties, and `unhandled` is any other command.
pub data Packet : Type 0 where
  connect : Text → Packet
  auth : Option AuthProperties → Packet
  publish : Publish → Packet
  subscribe : ℕ → List Subscription → Packet
  pingreq disconnect unhandled : Packet

-- Packets to a client: the objects that `mqttPacket.generate` is called with. `connack` has the ACL
-- that `userProperties` holds as JSON.
pub data Reply : Type 0 where
  auth : ℕ → Text → Text → Reply
  connack : ℕ → Option AclConfig → Reply
  suback : ℕ → List ℕ → Reply
  puback : ℕ → ℕ → Reply
  pubrec : ℕ → ℕ → Reply
  forward : Text → Text → Reply
  pingresp : Reply
