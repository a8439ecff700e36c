-- ===== src/Session/Connect.antt =====
-- `handleConnect` and `sendConnack` of Nodejs_Broker/client_session.mjs.
use otmc_broker.Prelude.{ℕ, Text, codes, is_empty, Bool, ◌++◌, Option, if◌then◌else◌}
use otmc_broker.Acl.{AclConfig}
use otmc_broker.Collect.{add_client, add_challenge}
use otmc_broker.Packet.{Reply, continue_auth}
use otmc_broker.World.{Exec, ◌>>◌, pure, modify, update, write_to, end_socket}

-- The texts that `crypto.randomBytes` gives in one call of `handleConnect`.
pub record Random : Type 0 where
  pub id_suffix : Text
  pub broker_suffix : Text
  pub challenge : Text

unfoldable pub broker_id : Text → Random → Text
broker_id packet_client_id random =
    (if is_empty packet_client_id then codes "client_" ++ random.id_suffix else packet_client_id)
    ++ codes "_broker_"
    ++ random.broker_suffix

unfoldable pub handle_connect : ℕ → Text → Random → Exec (Unit {0})
unfolding broker_id add_client add_challenge
handle_connect socket packet_client_id random = do
  let id : Text = broker_id packet_client_id random
  modify λ w. record w {
    sessions = update w.sessions socket (record (w.sessions socket) { client_id = id });
    collect = add_client w.collect id socket;
  }
  modify λ w. record w { collect = add_challenge w.collect id random.challenge }
  write_to socket (Reply.auth continue_auth (codes "certchain") random.challenge)

unfoldable pub send_connack : ℕ → ℕ → Option AclConfig → Bool → Exec (Unit {0})
send_connack socket reason_code acl end_after = do
  write_to socket (Reply.connack reason_code acl)
  if end_after then end_socket socket else pure tt
