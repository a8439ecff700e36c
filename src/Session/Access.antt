-- ===== src/Session/Access.antt =====
-- The access test that `handleSubscribe` and `handlePublish` of Nodejs_Broker/client_session.mjs make:
-- the topics of the ACL entries with a fitting action, and the loop with `matchTopic`.
pub mod Rights
use otmc_broker.Prelude.{Text, Bool, true, false, List, [], ◌∷◌, if◌then◌else◌}
use otmc_broker.Topic.{match_topic}
use otmc_broker.Acl.{Action, read, write, all, AclEntry, AclConfig}

abbrev pub is_readable : Action → Bool
is_readable all = true
is_readable read = true
is_readable write = false

abbrev pub is_writable : Action → Bool
is_writable all = true
is_writable read = false
is_writable write = true

unfoldable pub allowed_topics : (Action → Bool) → AclConfig → List Text
allowed_topics fits [] = []
allowed_topics fits (entry ∷ acl) =
    let rest = allowed_topics fits acl in if fits entry.action then entry.topic ∷ rest else rest

unfoldable pub matches_any : Text → List Text → Bool
matches_any topic [] = false
matches_any topic (allowed ∷ rest) =
    let later = matches_any topic rest in if match_topic topic allowed then true else later

unfoldable pub may_access : (Action → Bool) → AclConfig → Text → Bool
unfolding allowed_topics matches_any
may_access fits acl topic = matches_any topic (allowed_topics fits acl)
