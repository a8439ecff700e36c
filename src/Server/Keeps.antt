-- ===== src/Server/Keeps.antt =====
-- A property that each change of the maps keeps holds after any sequence of events.
use otmc_broker.Prelude.{
  ℕ, is_empty, Bool-cases, List, [], ◌∷◌, ◌++◌, append_assoc, some, ◌≡◌, ◌∙◌, refl, sym, inl, inr,
}
use otmc_broker.Result.{ok}
use otmc_broker.Runtime.{Runtime}
use otmc_broker.Certificate.{Config}
use otmc_broker.Packet.{AuthProperties, auth}
use otmc_broker.World.{World, start, client_id, has_acl}
use otmc_broker.Session.{Arrival, handle_packets, parse}
use otmc_broker.Session.Auth.{Clock}
use otmc_broker.Session.Keeps.{Laws}
use otmc_broker.Session.Keeps.Handlers.{HearsAll, packets_kept}
use otmc_broker.Server.Gone.{gone_anonymous, gone_throws, gone_deletes}
use otmc_broker.Server.{
  Event, received, closed, failed, Process, running, crashed, after, on_gone, step, run,
}

abbrev pub world : Process → World
world (running w) = w
world (crashed w) = w

module _ (r : Runtime) (config : Config) (events : List Event) where
  -- One of the events is a chunk on the socket, and one of its packets is an `auth` packet with these
  -- properties, which is handled at this reading of the clock. The world is the one in which the
  -- process is then: after the events before, and after the packets of the chunk that come before.
  pub record Heard (w : World) (socket : ℕ) (clock : Clock) (properties : AuthProperties)
      : Type 0 where
    pub past : List Event
    pub future : List Event
    pub done : List Arrival
    pub arrival : Arrival
    pub rest : List Arrival
    pub chunk : events ≡ past ++ received socket (done ++ arrival ∷ rest) ∷ future
    pub before_chunk : World
    pub reached : run r config (running start) past ≡ running before_chunk
    pub handled : handle_packets r config socket done before_chunk ≡ (ok tt, w)
    pub is_auth : arrival.packet ≡ auth (some properties)
    pub read : arrival.clock ≡ clock

module _ (I : World → Type 0) (r : Runtime) (config : Config) (events : List Event)
    (laws : Laws I (Heard r config events) r config) where
  on_gone_kept : (socket : ℕ) (w : World) → I w → I (world (after (on_gone socket w)))
  on_gone_kept socket w v = elim (Bool-cases (is_empty (client_id w socket))) [
    | inl anonymous ↦ rw (gone_anonymous socket w anonymous) v
    | inr named ↦ elim (Bool-cases (has_acl w socket)) [
      | inr undefined ↦
          rw (gone_throws socket w named undefined) (laws.forgotten w (client_id w socket) v)
      | inl defined ↦ rw (gone_deletes socket w named defined) (
          laws.framed _ _ _
            (laws.removed _ (client_id w socket) (laws.forgotten w (client_id w socket) v)))
    ]
  ]

  hears :
      (past future : List Event) (socket : ℕ) (arrivals : List Arrival) (w : World)
      → events ≡ past ++ received socket arrivals ∷ future
      → run r config (running start) past ≡ running w
      → HearsAll I (Heard r config events) r config laws socket arrivals w
  hears past future socket arrivals w e reached done rest arrival w' properties split handled
        is_auth =
      record {
        past = past;
        future = future;
        done = done;
        arrival = arrival;
        rest = rest;
        chunk = rw split at e;
        before_chunk = w;
        reached = reached;
        handled = handled;
        is_auth = is_auth;
        read = refl;
      }

  step_kept :
      (past future : List Event) (p : Process) (event : Event)
      → events ≡ past ++ event ∷ future
      → run r config (running start) past ≡ p
      → I (world p)
      → I (world (step r config p event))
  unfolding step parse
  step_kept past future (crashed w) event e reached v = v
  step_kept past future (running w) (received socket arrivals) e reached v =
      packets_kept I (Heard r config events) r config laws socket arrivals w
        (hears past future socket arrivals w e reached) v
  step_kept past future (running w) (closed socket) e reached v = on_gone_kept socket w v
  step_kept past future (running w) (failed socket) e reached v = on_gone_kept socket w v

  run-append :
      (p : Process) (past later : List Event)
      → run r config p (past ++ later) ≡ run r config (run r config p past) later
  unfolding run
  run-append p [] later = refl
  run-append p (event ∷ past) later = run-append (step r config p event) past later

  later_kept :
      (past later : List Event) (p : Process)
      → events ≡ past ++ later
      → run r config (running start) past ≡ p
      → I (world p)
      → I (world (run r config p later))
  unfolding run
  later_kept past [] p e reached v = v
  later_kept past (event ∷ later) p e reached v =
      later_kept (past ++ event ∷ []) later (step r config p event)
        (e ∙ sym (append_assoc past (event ∷ []) later))
        (run-append (running start) past (event ∷ []) ∙ rw reached refl)
        (step_kept past later p event e reached v)

  pub run_kept : I start → I (world (run r config (running start) events))
  unfolding run
  run_kept v = later_kept [] events (running start) refl refl v
