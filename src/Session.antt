-- ===== src/Session.antt =====
-- `ClientSession` of Nodejs_Broker/client_session.mjs: the dispatch on a packet's command, the parser's
-- packets under `try`, and the deletion of a client. The handlers are in the modules below.
pub mod Connect
pub mod Keeps
pub mod Barred
pub mod Access
pub mod Auth
pub mod Subscribe
pub mod Publish
use otmc_broker.Prelude.{ℕ, Text, Bool, true, false, not, List, [], ◌∷◌, if◌then◌else◌}
use otmc_broker.Result.{Result, ok, err, type_error}
use otmc_broker.Runtime.{Runtime}
use otmc_broker.Certificate.{Config}
use otmc_broker.Collect.{remove_client, remove_challenge}
use otmc_broker.Acl.{remove_acl}
use otmc_broker.Topics
use otmc_broker.Packet.{Packet, connect, auth, publish, subscribe, pingreq, disconnect, unhandled}
use otmc_broker.World.{World, Exec, ◌>>=◌, ◌>>◌, pure, raise, gets, modify, end_socket, has_acl}
use Connect.{Random, handle_connect}
use Auth.{Clock, handle_auth}
use Subscribe.{handle_subscribe}
use Publish.{handle_publish, handle_pingreq}

-- A packet, with the random texts and the clock readings that its handler gets.
pub record Arrival : Type 0 where
  pub packet : Packet
  pub random : Random
  pub clock : Clock

-- The deletion of a client. `internal.acl` is undefined until the first successful `auth`.
unfoldable pub delete : ℕ → Text → Exec (Unit {0})
delete socket id = do
  modify λ w. record w { collect = remove_client w.collect id }
  modify λ w. record w { collect = remove_challenge w.collect id }
  defined ← gets λ w. has_acl w socket
  if not defined then raise type_error else do
    modify λ w. record w { acls = remove_acl w.acls id }
    modify λ w. record w { subscriptions = Topics.remove_client w.subscriptions id }

module _ (r : Runtime) (config : Config) where
  unfoldable pub handle_packet : ℕ → Arrival → Exec (Unit {0})
  handle_packet socket arrival = elim arrival.packet [
    | connect client_id ↦ handle_connect socket client_id arrival.random
    | auth properties ↦ handle_auth r config socket arrival.clock properties
    | publish packet ↦ handle_publish socket packet
    | subscribe message_id subscriptions ↦ handle_subscribe socket message_id subscriptions
    | pingreq ↦ handle_pingreq socket
    | disconnect ↦ end_socket socket
    | unhandled ↦ pure tt
  ]

  -- The packets that the parser emits for a chunk, until a handler throws.
  unfoldable pub handle_packets : ℕ → List Arrival → Exec (Unit {0})
  handle_packets socket [] = pure tt
  handle_packets socket (arrival ∷ rest) = do
    handle_packet socket arrival
    handle_packets socket rest

  -- `parse`: what is thrown, by a handler or by the parser after its last packet, is caught.
  unfoldable pub parse : ℕ → List Arrival → World → World
  parse socket arrivals w = (handle_packets socket arrivals w).1
