-- ===== src/Examples/Access.antt =====
-- The access of a client with the chain k0, k1, k2 of which it has signed with k2, and the loops over
-- topics and chains.
use otmc_broker.Prelude.{
  ℕ, Bool, suc, min, ◌≤◌, Text, codes, true, List, [], ◌∷◌, ◌++◌, Option, some, ◌≡◌, ◌≢◌, ◌↔◌, ◌⊎◌,
  refl, arith, get_elem?, length, take, All, Any, Avoids,
}
use otmc_broker.TextSet
use otmc_broker.TextSet.{TextSet}
use otmc_broker.Topic.{levels, match_topic}
use otmc_broker.Topic.Relation.{Matches, match_topic-eq-Matches}
use otmc_broker.Topic.Path.{IsPlain}
use otmc_broker.Acl.{AclConfig, read, all, last_3, get_acl_config}
use otmc_broker.Certificate.{rebuild}
use otmc_broker.Certificate.Chain.{rebuild_total}
use otmc_broker.Session.Access.{is_writable, may_access}
use otmc_broker.Session.Access.Rights.{BelowFit, may_publish}
use otmc_broker.Examples.Setup.{runtime, key_of, key_of-IsPlain}

abbrev hashes : List Text
hashes = key_of 0 ∷ key_of 1 ∷ key_of 2 ∷ []

abbrev verified : TextSet
verified = key_of 2 ∷ []

plain : All IsPlain hashes
plain = (key_of-IsPlain 0, (key_of-IsPlain 1, (key_of-IsPlain 2, tt)))

abbrev topic : Text
topic = codes "k0/k1/k2/door"

may_publish_example :
    (may_access is_writable (get_acl_config (some hashes) (some verified)) topic ≡ true)
    ↔ BelowFit (TextSet.has verified) [] (last_3 hashes) (levels topic)
may_publish_example = may_publish hashes verified topic plain

abbrev acl : AclConfig
acl =
    record { topic = codes "a/#"; action = read }
    ∷ record { topic = codes "a/b/#"; action = all }
    ∷ []

match_topic-eq-Matches_example :
    (match_topic (codes "a/b/c") (codes "a/+/#") ≡ true)
    ↔ Matches (levels (codes "a/b/c")) (levels (codes "a/+/#"))
match_topic-eq-Matches_example = match_topic-eq-Matches (codes "a/b/c") (codes "a/+/#")

rebuilt : rebuild runtime 2 (0 ∷ []) 0 (2 ∷ 1 ∷ []) ≡ some (0 ∷ 1 ∷ 2 ∷ [], true)
unfolding rebuild otmc_broker.Certificate.take_first otmc_broker.Prelude.text_eq
rebuilt = refl

enough : length {A = ℕ} (2 ∷ 1 ∷ []) ≤ 2
enough = omega arith

rebuild_total_example :
    (result : List ℕ × Bool) × (rebuild runtime 2 (0 ∷ []) 0 (2 ∷ 1 ∷ []) ≡ some result)
rebuild_total_example = rebuild_total runtime 2 (0 ∷ []) 0 (2 ∷ 1 ∷ []) enough
