-- ===== src/Server/Cleanup.antt =====
-- What is left of a client when its connection has ended.
use otmc_broker.Prelude.{
  ℕ, Text, text_eq, text_eq_iff, text_eq_refl, is_empty, true, false, [], none, ◌≡◌, ◌≢◌, refl,
  arith,
}
use otmc_broker.Result.{ok}
use otmc_broker.Map
use otmc_broker.Map.Keys.{IsDistinct}
use otmc_broker.Collect.{get_client, get_challenge, remove_client, remove_challenge}
use otmc_broker.Acl.{get_acl, remove_acl}
use otmc_broker.Topics.Members.{subscribed, subscribed-remove_client}
use otmc_broker.World.{World, client_id, has_acl}
use otmc_broker.Server.{on_gone}
use otmc_broker.Server.Gone.{gone_deletes}

-- The process knows the client `id` in none of its maps.
pub record IsGone (w : World) (id : Text) : Type 0 where
  pub no_client : get_client w.collect id ≡ none
  pub no_challenge : get_challenge w.collect id ≡ none
  pub no_acl : get_acl w.acls id ≡ none
  pub no_subscription : (topic : Text) → subscribed w.subscriptions topic id ≡ false

-- All that the maps hold of the client `id` is the same in both worlds.
pub record SameClient (w w' : World) (id : Text) : Type 0 where
  pub client : get_client w'.collect id ≡ get_client w.collect id
  pub challenge : get_challenge w'.collect id ≡ get_challenge w.collect id
  pub acl : get_acl w'.acls id ≡ get_acl w.acls id
  pub subscription :
      (topic : Text) → subscribed w'.subscriptions topic id ≡ subscribed w.subscriptions topic id

module _ (socket : ℕ) (w : World) (named : is_empty (client_id w socket) ≡ false)
    (authenticated : has_acl w socket ≡ true) (distinct : IsDistinct w.subscriptions) where
  abbrev id : Text
  id = client_id w socket

  -- When the connection of a socket with a client id and an ACL ends, for distinct filters, nothing of
  -- that id is left in the maps, every other id's data is as before, the socket has no client id, and
  -- nothing is written.
  pub on_gone-IsGone :
      let (result, w') = on_gone socket w in
      (result ≡ ok tt)
      × IsGone w' id
      × ((j : Text) → j ≢ id → SameClient w w' j)
      × (client_id w' socket ≡ [])
      × (w'.output ≡ w.output)
  unfolding remove_client remove_challenge remove_acl get_client get_challenge get_acl
  on_gone-IsGone = rw (gone_deletes socket w named authenticated) (
    refl,
    record {
      no_client = rw Map.get-delete (rw (text_eq_refl id));
      no_challenge = rw Map.get-delete (rw (text_eq_refl id));
      no_acl = rw Map.get-delete (rw (text_eq_refl id));
      no_subscription = λ t.
          rw (subscribed-remove_client w.subscriptions id t id distinct) (rw (text_eq_refl id));
    },
    λ j other.
        let miss : text_eq id j ≡ false = ground (arith, text_eq_iff id j) in
        record {
          client = rw Map.get-delete (rw miss);
          challenge = rw Map.get-delete (rw miss);
          acl = rw Map.get-delete (rw miss);
          subscription =
              λ t. rw (subscribed-remove_client w.subscriptions id t j distinct) (rw miss);
        },
    ground arith,
    refl,
  )
