-- ===== src/Acl.antt =====
-- `ClientAcl` of Nodejs_Broker/client_acl.mjs and `getAclConfig` of client_session.mjs.
pub mod Config
use otmc_broker.Prelude.{
  ℕ, ◌-◌, Text, codes, is_empty, List, [], ◌∷◌, ◌++◌, Option, none, some, length, drop,
  if◌then◌else◌,
}
use otmc_broker.Map
use otmc_broker.Map.{Map}
use otmc_broker.TextSet
use otmc_broker.TextSet.{TextSet}
use otmc_broker.Topic.{slash}

-- The strings that the source writes and tests in `action`.
pub data Action : Type 0 where
  read write all : Action

pub record AclEntry : Type 0 where
  pub topic : Text
  pub action : Action

abbrev pub AclConfig : Type 0
AclConfig = List AclEntry

-- The module's `Acl` map, one for the whole process.
abbrev pub AclMap : Type 0
AclMap = Map AclConfig

unfoldable pub add_acl : AclMap → Text → AclConfig → AclMap
add_acl acls client_id acl = Map.set acls client_id acl

unfoldable pub remove_acl : AclMap → Text → AclMap
remove_acl acls client_id = Map.delete acls client_id

unfoldable pub get_acl : AclMap → Text → Option AclConfig
get_acl acls client_id = Map.get acls client_id

unfoldable pub get_all_acls : AclMap → List AclConfig
get_all_acls acls = Map.values acls

unfoldable pub clear : AclMap → AclMap
clear acls = []

-- `pubKeyHash.slice(-3)`.
unfoldable pub last_3 : List Text → List Text
last_3 hashes = drop (length hashes - 3) hashes

-- The loop over the last three hashes, from `current` on.
unfoldable pub acl_entries : Text → TextSet → List Text → AclConfig
acl_entries current challenge_hash [] = []
acl_entries current challenge_hash (hash ∷ rest) =
    let path = if is_empty current then hash else current ++ slash ∷ hash in
    let entry : AclEntry = record {
      topic = path ++ codes "/#";
      action = if TextSet.has challenge_hash hash then all else read;
    } in
    entry ∷ acl_entries path challenge_hash rest

-- `none` for a falsy first argument is `null`, and for a falsy second one `false`; an array and a
-- set are truthy, also when they are empty.
unfoldable pub get_acl_config : Option (List Text) → Option TextSet → AclConfig
unfolding last_3 acl_entries
get_acl_config none challenge_hash = []
get_acl_config (some pub_key_hash) none = []
get_acl_config (some pub_key_hash) (some challenge_hash) =
    acl_entries [] challenge_hash (last_3 pub_key_hash)
