-- ===== src/Gateway/Nodes/Sound.antt =====
-- Where the nodes of HAProxy_Gate/dynamic-backend/backend_redis.mjs come from.
use otmc_broker.Prelude.{
  Text, codes, is_empty, Bool, Bool-cases, true, false, List, [], ◌∷◌, Option, Option-cases, none,
  some, inl, inr, ◌≡◌, refl, ap, subst, All, Any, Any_member,
}
use otmc_broker.Map
use otmc_broker.Map.{Map}
use otmc_broker.Map.Keys.{IsDistinct, set-IsDistinct}
use otmc_broker.Map.Entries.{AllEntries, set-AllEntries}
use otmc_broker.Result.{Result, ok, err, Holds, >>=-Holds, Holds-map}
use otmc_broker.Json.{Value, null, array, nil, property, truthy, iterate, key_text}
use otmc_broker.PlainObject.{Found, missing, inherited, found, member}
use otmc_broker.Gateway.Nodes.{
  Peer, Redis, endpoints_key, endpoint_key, add_peer, add_node, parsed_or, read_nodes,
  get_all_backends,
}

module _ (redis : Redis) where
  abbrev is_ok_and : (Option Value → Bool) → Result (Option Value) → Bool
  is_ok_and test (err thrown) = false
  is_ok_and test (ok value) = test value

  -- The value that Redis has for a node id.
  pub record IsStored (node_id : Option Value) (value : Value) : Type 0 where
    pub text : Text
    pub stored : redis.get (endpoint_key (key_text node_id)) ≡ ok (some text)
    pub parsed : redis.parse_json text ≡ some value

  parsed_text :
      (node_id : Option Value) (stored : Option Text) (value : Value)
      → redis.get (endpoint_key (key_text node_id)) ≡ ok stored
      → parsed_or redis stored (some null) ≡ ok (some value)
      → truthy (some value) ≡ true
      → IsStored node_id value
  unfolding truthy
  parsed_text node_id none value e parsed full = absurd (cc (full, ap (is_ok_and truthy) parsed))
  parsed_text node_id (some text) value e parsed full = elim (Bool-cases (is_empty text)) [
    | inl empty ↦ absurd (cc (full, ap (is_ok_and truthy) (rw empty at parsed)))
    | inr more ↦ elim (Option-cases (redis.parse_json text)) [
      | inl fails ↦ absurd (cc (rw (more, fails) at parsed))
      | inr (v, e') ↦ record { text = text; stored = e; parsed = cc (e', rw (more, e') at parsed) }
    ]
  ]

  -- A value that Redis has for the node id of one of the endpoints names the node and its address.
  pub record IsNode (endpoints : List Value) (id : Text) (peer : Peer) : Type 0 where
    pub endpoint : Value
    pub value : Value
    pub node_id : Option Value
    pub own_id : Option Value
    pub listed : Any (λ e. e ≡ endpoint) endpoints
    pub named : property (some endpoint) (codes "nodeId") ≡ ok node_id
    pub stored : IsStored node_id value
    pub host : property (some value) (codes "host") ≡ ok peer.host
    pub port : property (some value) (codes "port") ≡ ok peer.port
    pub own : property (some value) (codes "nodeId") ≡ ok own_id
    pub key : key_text own_id ≡ id

  -- A property of the object that each new node keeps.
  module _ (I : Map Peer → Type 0) (endpoints : List Value)
      (added : (m : Map Peer) (id : Text) (peer : Peer)
        → IsNode endpoints id peer
        → I m
        → I (Map.set m id peer)) where
    add_peer-Holds :
        (place : Found Peer) (m : Map Peer) (id : Text) (peer : Peer)
        → IsNode endpoints id peer
        → I m
        → I (add_peer place id peer m)
    add_peer-Holds missing m id peer n i = added m id peer n i
    add_peer-Holds inherited m id peer n i = i
    add_peer-Holds (found p) m id peer n i = i

    add_node-Holds :
        (endpoint : Value) (node_id : Option Value) (stored : Option Text) (value : Option Value)
        (m : Map Peer)
        → Any (λ e. e ≡ endpoint) endpoints
        → property (some endpoint) (codes "nodeId") ≡ ok node_id
        → redis.get (endpoint_key (key_text node_id)) ≡ ok stored
        → parsed_or redis stored (some null) ≡ ok value
        → I m
        → Holds I (add_node value m)
    unfolding add_node truthy
    add_node-Holds endpoint node_id stored none m listed named e parsed i = i
    add_node-Holds endpoint node_id stored (some value) m listed named e parsed i =
        elim (Bool-cases (truthy (some value))) [
          | inr falsy ↦ rw (falsy, Holds) i
          | inl full ↦
              rw (full, Holds)
                (>>=-Holds I (property (some value) (codes "host")) _ λ host h.
                  >>=-Holds I (property (some value) (codes "port")) _ λ port p.
                    >>=-Holds I (property (some value) (codes "nodeId")) _ λ own_id o.
                      add_peer-Holds (member m (key_text own_id)) m (key_text own_id)
                        (record { host = host; port = port })
                        (record {
                          endpoint = endpoint;
                          value = value;
                          node_id = node_id;
                          own_id = own_id;
                          listed = listed;
                          named = named;
                          stored = parsed_text node_id stored value e parsed full;
                          host = h;
                          port = p;
                          own = o;
                          key = refl;
                        })
                        i)
        ]

    read_nodes-Holds :
        (vs : List Value) (m : Map Peer)
        → All (λ v. Any (λ e. e ≡ v) endpoints) vs
        → I m
        → Holds I (read_nodes redis vs m)
    unfolding read_nodes
    read_nodes-Holds [] m listed i = i
    read_nodes-Holds (v ∷ vs) m listed i =
        >>=-Holds I (property (some v) (codes "nodeId")) _ λ node_id named.
          >>=-Holds I (redis.get (endpoint_key (key_text node_id))) _ λ stored e.
            >>=-Holds I (parsed_or redis stored (some null)) _ λ value parsed.
              >>=-Holds I (add_node value m) _ λ m' done. read_nodes-Holds vs m' listed.1 (
                subst (Holds I) done
                  (add_node-Holds v node_id stored value m listed.0 named e parsed i))

  pub get_all_backends-IsDistinct :
      (backends : Map Peer) → get_all_backends redis ≡ ok backends → IsDistinct backends
  unfolding get_all_backends
  get_all_backends-IsDistinct backends e = subst (Holds IsDistinct) e (
      >>=-Holds IsDistinct (redis.get endpoints_key) _ λ stored s.
        >>=-Holds IsDistinct (parsed_or redis stored (some (array nil))) _ λ value v.
          >>=-Holds IsDistinct (iterate value) _ λ endpoints i.
            read_nodes-Holds IsDistinct endpoints (λ m id peer n d. set-IsDistinct m id peer d)
              endpoints [] (Any_member endpoints) tt)

  -- The endpoints that Redis has under the key of the list.
  pub record IsList (endpoints : List Value) : Type 0 where
    pub stored : Option Text
    pub value : Option Value
    pub read : redis.get endpoints_key ≡ ok stored
    pub parsed : parsed_or redis stored (some (array nil)) ≡ ok value
    pub listed : iterate value ≡ ok endpoints

  IsFound : Map Peer → Type 0
  IsFound backends =
      (endpoints : List Value) × IsList endpoints × AllEntries (IsNode endpoints) backends

  -- Every node that is found has the host and the port of a value that Redis stores for the node id of
  -- one of the endpoints in its list, and the node id which that value names.
  pub get_all_backends_sound :
      (backends : Map Peer)
      → get_all_backends redis ≡ ok backends
      → (endpoints : List Value) × IsList endpoints × AllEntries (IsNode endpoints) backends
  unfolding get_all_backends IsFound Map.get
  get_all_backends_sound backends e = subst (Holds IsFound) e (
      >>=-Holds IsFound (redis.get endpoints_key) _ λ stored s.
        >>=-Holds IsFound (parsed_or redis stored (some (array nil))) _ λ value v.
          >>=-Holds IsFound (iterate value) _ λ endpoints i.
            Holds-map (AllEntries (IsNode endpoints)) IsFound (read_nodes redis endpoints [])
              (λ m nodes. (
                endpoints,
                record { stored = stored; value = value; read = s; parsed = v; listed = i },
                nodes,
              ))
              (read_nodes-Holds (AllEntries (IsNode endpoints)) endpoints
                (λ m id peer n nodes.
                  set-AllEntries (IsNode endpoints) (IsNode endpoints) m id peer n
                    (λ j w miss kept. kept) nodes)
                endpoints [] (Any_member endpoints) (λ k v found. absurd (cc found))))
