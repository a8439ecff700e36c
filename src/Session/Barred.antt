-- ===== src/Session/Barred.antt =====
-- A socket without an ACL: what it sends to publish or subscribe.
use otmc_broker.Prelude.{ℕ, List, [], ◌∷◌, ◌≡◌, ap}
use otmc_broker.Result.{err, type_error}
use otmc_broker.Runtime.{Runtime}
use otmc_broker.Certificate.{Config}
use otmc_broker.Packet.{Packet, connect, auth, publish, subscribe, pingreq, disconnect, unhandled}
use otmc_broker.World.{World, continue}
use otmc_broker.Session.{Arrival, handle_packet, handle_packets, parse}
use otmc_broker.Session.Connect.{Random}
use otmc_broker.Session.Auth.{Clock}
use otmc_broker.Session.Subscribe.{NoAcl}
use otmc_broker.Session.Subscribe.Grants.{handle_subscribe_throws}
use otmc_broker.Session.Publish.Effects.{handle_publish_throws}

-- A packet that publishes, or that subscribes with at least one filter.
abbrev pub IsMessage : Packet → Type 0
IsMessage (publish packet) = Unit
IsMessage (subscribe message_id (sub ∷ subs)) = Unit
IsMessage packet = ⊥

module _ (r : Runtime) (config : Config) (socket : ℕ) (w : World) (barred : NoAcl w socket) where
  module _ (random : Random) (clock : Clock) where
    message_throws :
        (packet : Packet)
        → IsMessage packet
        → handle_packet r config socket
            (record { packet = packet; random = random; clock = clock })
            w
          ≡ (err type_error, w)
    unfolding handle_packet
    message_throws (publish packet) m = handle_publish_throws socket packet w barred
    message_throws (subscribe message_id (sub ∷ subs)) m =
        handle_subscribe_throws socket w message_id sub subs barred
    message_throws (subscribe message_id []) m = absurd m
    message_throws (connect id) m = absurd m
    message_throws (auth properties) m = absurd m
    message_throws pingreq m = absurd m
    message_throws disconnect m = absurd m
    message_throws unhandled m = absurd m

    parse_message :
        (packet : Packet) (rest : List Arrival)
        → IsMessage packet
        → parse r config socket
            (record { packet = packet; random = random; clock = clock } ∷ rest)
            w
          ≡ w
    unfolding parse handle_packets
    parse_message packet rest m =
        ap (λ result. (continue result.0 (λ _. handle_packets r config socket rest) result.1).1)
          (message_throws packet m)

  -- If the socket's session has no ACL, or none is stored for its client id, a chunk that begins with a
  -- packet to publish or to subscribe changes nothing and writes nothing, and the rest of the chunk is
  -- dropped.
  pub parse_barred :
      (arrival : Arrival) (rest : List Arrival)
      → IsMessage arrival.packet
      → parse r config socket (arrival ∷ rest) w ≡ w
  parse_barred arrival rest m = parse_message arrival.random arrival.clock arrival.packet rest m
