-- ===== src/Server/Crash.antt =====
-- When the process ends: the deletion of a client reads `internal.acl`, which is undefined until the
-- first successful `auth`.
use otmc_broker.Prelude.{
  ℕ, Text, is_empty, Bool-cases, false, [], ◌∷◌, ◌≡◌, ◌↔◌, inl, inr, refl, arith,
}
use otmc_broker.Runtime.{Runtime}
use otmc_broker.Certificate.{Config}
use otmc_broker.Packet.{connect}
use otmc_broker.World.{World, client_id, has_acl}
use otmc_broker.Session.Connect.{Random, broker_id, handle_connect}
use otmc_broker.Session.Auth.{Clock}
use otmc_broker.Session.{handle_packet, handle_packets, parse}
use otmc_broker.Server.Gone.{gone_anonymous, gone_throws, gone_deletes}
use otmc_broker.Server.{received, closed, failed, Process, running, crashed, after, on_gone, step}

abbrev pub Crashed : Process → Type 0
Crashed (running w) = ⊥
Crashed (crashed w) = Unit

module _ (r : Runtime) (config : Config) (w : World) (socket : ℕ) where
  closed_iff :
      Crashed (after (on_gone socket w))
      ↔ ((is_empty (client_id w socket) ≡ false) × (has_acl w socket ≡ false))
  closed_iff = elim (Bool-cases (is_empty (client_id w socket))) [
    | inl anonymous ↦ rw (gone_anonymous socket w anonymous) (ground arith)
    | inr named ↦ elim (Bool-cases (has_acl w socket)) [
      | inl defined ↦ rw (gone_deletes socket w named defined) (ground arith)
      | inr undefined ↦ rw (gone_throws socket w named undefined) (ground arith)
    ]
  ]

  -- The end of a connection, by `close` or by `error`, ends the process exactly if the socket has a
  -- client id and its session has no ACL.
  pub crash_iff :
      (Crashed (step r config (running w) (closed socket))
        ↔ ((is_empty (client_id w socket) ≡ false) × (has_acl w socket ≡ false)))
      × (step r config (running w) (failed socket) ≡ step r config (running w) (closed socket))
  unfolding step
  crash_iff = (closed_iff, refl)

pub broker_id_not_empty : (id : Text) (random : Random) → is_empty (broker_id id random) ≡ false
unfolding broker_id
broker_id_not_empty [] random = refl
broker_id_not_empty (c ∷ id) random = refl

-- If a socket's session has no ACL, a CONNECT on it and then the end of the connection end the process.
pub connect_then_close :
    (r : Runtime) (config : Config) (w : World) (socket : ℕ) (id : Text) (random : Random)
    (clock : Clock)
    → has_acl w socket ≡ false
    → Crashed (
        step r config
          (step r config
            (running w)
            (received socket (record { packet = connect id; random = random; clock = clock } ∷ [])))
          (closed socket))
unfolding step parse handle_packets handle_packet handle_connect
connect_then_close r config w socket id random clock h =
    (closed_iff r config _ socket).1 (ground (arith, broker_id_not_empty id random), ground arith)
