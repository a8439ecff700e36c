-- ===== src/Session/Subscribe.antt =====
-- `handleSubscribe` of Nodejs_Broker/client_session.mjs.
pub mod Grants
use otmc_broker.Prelude.{
  ℕ, Text, Bool, true, false, not, List, [], ◌∷◌, ◌++◌, Option, none, some, ◌≡◌, ◌⊎◌, inl, inr,
  arith, if◌then◌else◌,
}
use otmc_broker.Result.{ok, err, type_error}
use otmc_broker.Acl.{AclConfig, get_acl}
use otmc_broker.Topics.{add_subscription}
use otmc_broker.Packet.{Reply, Subscription, granted_not_authorized}
use otmc_broker.World.{World, Exec, ◌>>=◌, ◌>>◌, pure, raise, modify, write_to, client_id, has_acl}
use otmc_broker.Session.Access.{is_readable, may_access}

-- `this.acl.getAcl(socket.clientId).forEach(…)`: a throw if `this.acl` is undefined, and if there is
-- no ACL for the client.
unfoldable pub acl_of : ℕ → Exec AclConfig
acl_of socket w =
    if not (has_acl w socket)
    then raise type_error w
    else elim (get_acl w.acls (client_id w socket)) [
      | none ↦ raise type_error w
      | some acl ↦ pure acl w
    ]

pub acl_of-some :
    (socket : ℕ) (w : World) (acl : AclConfig)
    → has_acl w socket ≡ true
    → get_acl w.acls (client_id w socket) ≡ some acl
    → acl_of socket w ≡ (ok acl, w)
unfolding acl_of
acl_of-some socket w acl h e = ground arith

-- What makes `acl_of` throw.
abbrev pub NoAcl : World → ℕ → Type 0
NoAcl w socket = (has_acl w socket ≡ false) ⊎ (get_acl w.acls (client_id w socket) ≡ none)

pub acl_of_throws :
    (socket : ℕ) (w : World) → NoAcl w socket → acl_of socket w ≡ (err type_error, w)
unfolding acl_of
acl_of_throws socket w (inl h) = ground arith
acl_of_throws socket w (inr h) = ground arith

-- One subscription of the packet, with its return code.
unfoldable pub subscribe_one : ℕ → Subscription → Exec ℕ
subscribe_one socket sub = do
  acl ← acl_of socket
  if not (may_access is_readable acl sub.topic) then pure granted_not_authorized else do
    modify λ w. record w {
      subscriptions = add_subscription w.subscriptions sub.topic (client_id w socket);
    }
    pure sub.qos

unfoldable pub subscribe_all : ℕ → List Subscription → List ℕ → Exec (List ℕ)
subscribe_all socket [] granted = pure granted
subscribe_all socket (sub ∷ subs) granted = do
  code ← subscribe_one socket sub
  subscribe_all socket subs (granted ++ code ∷ [])

unfoldable pub handle_subscribe : ℕ → ℕ → List Subscription → Exec (Unit {0})
handle_subscribe socket message_id subscriptions = do
  granted ← subscribe_all socket subscriptions []
  write_to socket (Reply.suback message_id granted)
