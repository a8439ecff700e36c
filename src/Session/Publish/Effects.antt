-- ===== src/Session/Publish/Effects.antt =====
-- What `handlePublish` writes, and to whom.
use otmc_broker.Prelude.{
  ℕ, Text, Bool-cases, true, List, [], ◌∷◌, ◌++◌, Option, Option-cases, none, some, ◌≡◌, inl, inr,
  arith, sym, ◌∙◌, append-nil, append_assoc, ◌==◌, if◌then◌else◌,
}
use otmc_broker.Result.{Result, ok, err, type_error}
use otmc_broker.Collect.{Collector, get_client}
use otmc_broker.Acl.{AclConfig, get_acl}
use otmc_broker.Topics.{get_subscriptions}
use otmc_broker.Packet.{Reply, Publish, success, not_authorized}
use otmc_broker.World.{World, ◌>>◌, Output, write, client_id, has_acl}
use otmc_broker.Session.Access.{is_writable, may_access}
use otmc_broker.Session.Subscribe.{acl_of-some, NoAcl, acl_of_throws}
use otmc_broker.Session.Publish.{forward_to, forward_message, acknowledge, handle_publish}

-- One packet for each recipient that has a client, in order.
abbrev pub deliver : Option ℕ → Text → Text → List Output → List Output
deliver none topic payload rest = rest
deliver (some target) topic payload rest = write target (Reply.forward topic payload) ∷ rest

abbrev pub deliveries : Collector ℕ → Text → Text → List Text → List Output
deliveries collect topic payload [] = []
deliveries collect topic payload (id ∷ ids) =
    deliver (get_client collect id) topic payload (deliveries collect topic payload ids)

abbrev pub extend : World → List Output → World
extend w more = record w { output = w.output ++ more }

extend-nil : (w : World) → ◌≡◌ {A = Result (Unit {0}) × World} (ok tt, w) (ok tt, extend w [])
extend-nil w = λ i. (ok tt, record w { output = sym (append-nil w.output) i })

extend-extend :
    (w : World) (a b : List Output)
    → ◌≡◌ {A = Result (Unit {0}) × World} (ok tt, extend (extend w a) b) (ok tt, extend w (a ++ b))
extend-extend w a b = λ i. (ok tt, record w { output = append_assoc w.output a b i })

forward_to_lem :
    (topic payload : Text) (ids : List Text) (w : World)
    → forward_to topic payload ids w ≡ (ok tt, extend w (deliveries w.collect topic payload ids))
unfolding forward_to
forward_to_lem topic payload [] w = extend-nil w
forward_to_lem topic payload (id ∷ ids) w = elim (Option-cases (get_client w.collect id)) [
  | inl e ↦ rw e (forward_to_lem topic payload ids w)
  | inr (target, e) ↦ rw e (
      forward_to_lem topic payload ids (extend w (write target (Reply.forward topic payload) ∷ []))
      ∙ extend-extend w (write target (Reply.forward topic payload) ∷ [])
          (deliveries w.collect topic payload ids))
]

-- The acknowledgement: PUBACK for quality of service 1, PUBREC for 2, if there is a message id.
abbrev pub ack_for : ℕ → Publish → ℕ → List Output
ack_for socket packet reason_code = elim packet.message_id [
  | none ↦ []
  | some id ↦
      if packet.qos == 1
      then write socket (Reply.puback id reason_code) ∷ []
      else if packet.qos == 2
      then write socket (Reply.pubrec id reason_code) ∷ []
      else []
]

acknowledge_lem :
    (socket : ℕ) (packet : Publish) (reason_code : ℕ) (w : World)
    → acknowledge socket packet reason_code w
      ≡ (ok tt, extend w (ack_for socket packet reason_code))
unfolding acknowledge
acknowledge_lem socket packet reason_code w = ground (arith, append-nil w.output)

module _ (socket : ℕ) (packet : Publish) (w : World) where
  forward_acknowledged :
      (forward_message packet.topic packet.payload >> acknowledge socket packet success) w ≡ (
        ok tt,
        extend w (
            deliveries w.collect packet.topic packet.payload
              (get_subscriptions w.subscriptions packet.topic)
            ++ ack_for socket packet success),
      )
  unfolding forward_message
  forward_acknowledged =
      rw
        (forward_to_lem packet.topic packet.payload (get_subscriptions w.subscriptions packet.topic)
          w)
        (acknowledge_lem socket packet success (
            extend w (
              deliveries w.collect packet.topic packet.payload
                (get_subscriptions w.subscriptions packet.topic)))
          ∙ extend-extend w _ (ack_for socket packet success))

  -- For a socket with an ACL: a packet that the ACL allows goes to each recipient of its topic that has a client, once for each
  -- time that the recipient is listed, and is then acknowledged with success; any other packet goes to
  -- nobody and is acknowledged with "not authorized". Nothing but the output changes.
  pub handle_publish_lem :
      (acl : AclConfig)
      → has_acl w socket ≡ true
      → get_acl w.acls (client_id w socket) ≡ some acl
      → handle_publish socket packet w ≡ (
        ok tt,
        extend w (
            if may_access is_writable acl packet.topic
            then deliveries w.collect packet.topic packet.payload
                (get_subscriptions w.subscriptions packet.topic)
              ++ ack_for socket packet success
            else ack_for socket packet not_authorized),
      )
  unfolding handle_publish
  handle_publish_lem acl h e =
      rw (acl_of-some socket w acl h e)
        (elim (Bool-cases (may_access is_writable acl packet.topic)) [
          | inr denied ↦ rw denied (acknowledge_lem socket packet not_authorized w)
          | inl allowed ↦ rw allowed (forward_acknowledged)
        ])

  -- Without an ACL the handler throws, and nothing changes.
  pub handle_publish_throws : NoAcl w socket → handle_publish socket packet w ≡ (err type_error, w)
  unfolding handle_publish
  handle_publish_throws h = rw (acl_of_throws socket w h)
