-- ===== src/Server/Gone.antt =====
-- The listener of a connection's end, case by case.
use otmc_broker.Prelude.{ℕ, Text, is_empty, true, false, [], ◌≡◌}
use otmc_broker.Result.{ok, err, type_error}
use otmc_broker.Collect.{remove_client, remove_challenge}
use otmc_broker.Acl.{remove_acl}
use otmc_broker.Topics
use otmc_broker.World.{World, client_id, has_acl, update}
use otmc_broker.Session.{delete}
use otmc_broker.Server.{on_gone}

module _ (socket : ℕ) (w : World) where
  pub gone_anonymous : is_empty (client_id w socket) ≡ true → on_gone socket w ≡ (ok tt, w)
  unfolding on_gone
  gone_anonymous h = rw h

  abbrev pub removed : World
  removed = record w {
    collect = remove_challenge (remove_client w.collect (client_id w socket)) (client_id w socket);
  }

  -- The throw comes after the client and its challenge have gone.
  pub gone_throws :
      is_empty (client_id w socket) ≡ false
      → has_acl w socket ≡ false
      → on_gone socket w ≡ (err type_error, removed)
  unfolding on_gone delete
  gone_throws h a = rw (h, a)

  delete_defined :
      (id : Text)
      → has_acl w socket ≡ true
      → delete socket id w ≡ (
        ok tt,
        record w {
          collect = remove_challenge (remove_client w.collect id) id;
          acls = remove_acl w.acls id;
          subscriptions = Topics.remove_client w.subscriptions id;
        },
      )
  unfolding delete
  delete_defined id a = rw a

  pub gone_deletes :
      is_empty (client_id w socket) ≡ false
      → has_acl w socket ≡ true
      → on_gone socket w ≡ (
        ok tt,
        record removed {
          acls = remove_acl w.acls (client_id w socket);
          subscriptions = Topics.remove_client w.subscriptions (client_id w socket);
          sessions = update w.sessions socket (record (w.sessions socket) { client_id = [] });
        },
      )
  unfolding on_gone
  gone_deletes h a = rw h (rw (delete_defined (client_id w socket) a))
