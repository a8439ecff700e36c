-- ===== src/Server/Leak.antt =====
-- A socket on which CONNECT comes twice.
use otmc_broker.Prelude.{
  ℕ, Text, text_eq, text_eq_iff, text_eq_refl, is_empty, Bool-cases, false, [], ◌∷◌, some, ◌≡◌, ◌≢◌,
  inl, inr, ◌∙◌, arith,
}
use otmc_broker.Map
use otmc_broker.Runtime.{Runtime}
use otmc_broker.Certificate.{Config}
use otmc_broker.Collect.{get_client, add_client, add_challenge, remove_client, remove_challenge}
use otmc_broker.Packet.{connect}
use otmc_broker.World.{World, Session, client_id, has_acl, update}
use otmc_broker.Session.Connect.{Random, broker_id, handle_connect}
use otmc_broker.Session.Auth.{Clock}
use otmc_broker.Session.{handle_packet, handle_packets, parse}
use otmc_broker.Server.Keeps.{world}
use otmc_broker.Server.Gone.{gone_throws, gone_deletes}
use otmc_broker.Server.Crash.{broker_id_not_empty}
use otmc_broker.Server.{Event, received, closed, running, after, on_gone, step, run}

-- What the end of a connection leaves of another id.
other_client :
    (socket : ℕ) (w : World) (id : Text)
    → is_empty (client_id w socket) ≡ false
    → id ≢ client_id w socket
    → get_client (world (after (on_gone socket w))).collect id ≡ get_client w.collect id
unfolding get_client remove_client remove_challenge
other_client socket w id named other =
    let miss : text_eq (client_id w socket) id ≡ false =
      ground (arith, text_eq_iff (client_id w socket) id) in
    elim (Bool-cases (has_acl w socket)) [
      | inl defined ↦ rw (gone_deletes socket w named defined) (rw Map.get-delete (rw miss))
      | inr undefined ↦ rw (gone_throws socket w named undefined) (rw Map.get-delete (rw miss))
    ]

latest_id :
    (sessions : ℕ → Session) (socket : ℕ) (session : Session)
    → (update sessions socket session socket).client_id ≡ session.client_id
latest_id sessions socket session = ground arith

first_of_two :
    (clients : Map.Map ℕ) (id id' : Text) (socket : ℕ)
    → id ≢ id'
    → Map.get (Map.set (Map.set clients id socket) id' socket) id ≡ some socket
first_of_two clients id id' socket differ =
    let miss : text_eq id' id ≡ false = ground (arith, text_eq_iff id' id) in
    rw (Map.get-set) (rw miss (rw Map.get-set (rw (text_eq_refl id))))

module _ (r : Runtime) (config : Config) (w : World) (socket : ℕ) (clock : Clock) where
  abbrev pub connects : Text → Random → Event
  connects id random =
      received socket (record { packet = connect id; random = random; clock = clock } ∷ [])

  -- If CONNECT comes twice on a socket, and the two generated ids differ, the first of them still stands
  -- for the socket in the map of clients when the connection has ended.
  pub second_connect_leaks :
      (id id' : Text) (random random' : Random)
      → broker_id id random ≢ broker_id id' random'
      → get_client
          (world (
            run r config
              (running w)
              (connects id random ∷ connects id' random' ∷ closed socket ∷ []))).collect
          (broker_id id random)
        ≡ some socket
  unfolding run step parse handle_packets handle_packet handle_connect get_client add_client
      add_challenge
  second_connect_leaks id id' random random' differ =
      other_client socket _ (broker_id id random) (rw latest_id (broker_id_not_empty id' random'))
        (λ e. differ (
          e
          ∙ latest_id
              (update w.sessions socket
                (record (w.sessions socket) { client_id = broker_id id random }))
              socket _))
      ∙ first_of_two w.collect.clients (broker_id id random) (broker_id id' random') socket differ
