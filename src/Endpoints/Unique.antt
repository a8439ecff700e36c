-- ===== src/Endpoints/Unique.antt =====
-- The endpoints that are written back have different addresses.
use otmc_broker.Prelude.{
  Text, text_eq, text_eq_refl, List, [], ◌∷◌, ◌++◌, Option, none, some, ◌≡◌, inl, inr, refl, sym,
  ap, subst, ◌∙◌, arith, if◌then◌else◌,
}
use otmc_broker.Map
use otmc_broker.Map.{Map}
use otmc_broker.Map.Keys.{IsDistinct, set-IsDistinct}
use otmc_broker.Result.{Result, Result-cases, ok, err}
use otmc_broker.Json.{Value, null, boolean, number, string, array, object, item_list}
use otmc_broker.Runtime.{Runtime}
use otmc_broker.Endpoints.{
  endpoint_address, by_address, pushed, stored_text, update_store_endpoints,
}

-- The last endpoint of the list with the address, and `found` if there is none.
abbrev pub replaced : Result Text → Text → Value → Option Value → Option Value
replaced (err e) address endpoint found = found
replaced (ok a) address endpoint found = if text_eq a address then some endpoint else found

abbrev pub last_at : Option Value → List Value → Text → Option Value
last_at found [] address = found
last_at found (endpoint ∷ rest) address =
    last_at (replaced (endpoint_address endpoint) address endpoint found) rest address

by_address_lem :
    (found result : Map Value) (endpoints : List Value) (address : Text)
    → IsDistinct found
    → by_address found endpoints ≡ ok result
    → IsDistinct result
      × (Map.get result address ≡ last_at (Map.get found address) endpoints address)
unfolding by_address
by_address_lem found result [] address d e =
    let same : found ≡ result = cc in
    (subst IsDistinct same d, ap (λ m. Map.get m address) (sym same))
by_address_lem found result (endpoint ∷ rest) address d e =
    elim (Result-cases (endpoint_address endpoint)) [
      | inr (x, h) ↦ absurd (ground (arith, h))
      | inl (a, h) ↦
          let (d', g) =
            by_address_lem (Map.set found a endpoint) result rest address
              (set-IsDistinct found a endpoint d) (ground (arith, h)) in
          (d', rw h (rw Map.get-set at g))
    ]

last_at-append :
    (endpoints : List Value) (endpoint : Value) (address : Text) (found : Option Value)
    → endpoint_address endpoint ≡ ok address
    → last_at found (endpoints ++ endpoint ∷ []) address ≡ some endpoint
last_at-append [] endpoint address found h = rw h (rw (text_eq_refl address))
last_at-append (e ∷ endpoints) endpoint address found h =
    last_at-append endpoints endpoint address _ h

pushed_last :
    (parsed : Option Value) (endpoint : Value) (endpoints : List Value)
    → pushed parsed endpoint ≡ ok endpoints
    → (before : List Value) × (endpoints ≡ before ++ endpoint ∷ [])
unfolding pushed
pushed_last none endpoint endpoints e = cc
pushed_last (some (array vs)) endpoint endpoints e = (item_list vs, cc)
pushed_last (some null) endpoint endpoints e = cc
pushed_last (some (boolean b)) endpoint endpoints e = cc
pushed_last (some (number t)) endpoint endpoints e = cc
pushed_last (some (string t)) endpoint endpoints e = cc
pushed_last (some (object fs)) endpoint endpoints e = cc

module _ (r : Runtime) (stored : Option Text) (endpoint : Value) where
  -- What is written: endpoints by address, the last one for each, and the own one at its address.
  pub record IsUpdated (written : List Value) : Type 0 where
    pub endpoints : List Value
    pub reads : pushed (r.parse_json (stored_text stored)) endpoint ≡ ok endpoints
    pub found : Map Value
    pub writes : written ≡ Map.values found
    pub distinct : IsDistinct found
    pub last : (address : Text) → Map.get found address ≡ last_at none endpoints address
    pub own :
        (address : Text)
        → endpoint_address endpoint ≡ ok address
        → Map.get found address ≡ some endpoint

  updated :
      (endpoints : List Value) (found : Map Value)
      → pushed (r.parse_json (stored_text stored)) endpoint ≡ ok endpoints
      → by_address [] endpoints ≡ ok found
      → IsUpdated (Map.values found)
  unfolding Map.get
  updated endpoints found p b =
      let (before, shape) = pushed_last (r.parse_json (stored_text stored)) endpoint endpoints p in
      record {
        endpoints = endpoints;
        reads = p;
        found = found;
        writes = refl;
        distinct = (by_address_lem [] found endpoints [] tt b).0;
        last = λ address. (by_address_lem [] found endpoints address tt b).1;
        own = λ address h.
            (by_address_lem [] found endpoints address tt b).1
            ∙ ap (λ l. last_at none l address) shape
            ∙ last_at-append before endpoint address none h;
      }

  -- When `updateStoreEndpoints` comes to write, it writes the values of a map with distinct addresses:
  -- for each address the last endpoint among those in Redis and its own, so its own at its address.
  pub update_store_endpoints-IsUpdated :
      (written : List Value)
      → update_store_endpoints r stored endpoint ≡ ok written
      → IsUpdated written
  unfolding update_store_endpoints
  update_store_endpoints-IsUpdated written e =
      elim (Result-cases (pushed (r.parse_json (stored_text stored)) endpoint)) [
        | inr (x, p) ↦ absurd (ground (arith, p))
        | inl (endpoints, p) ↦ elim (Result-cases (by_address [] endpoints)) [
          | inr (x, b) ↦ absurd (ground (arith, p, b))
          | inl (found, b) ↦ subst IsUpdated (ground (arith, p, b)) (updated endpoints found p b)
        ]
      ]
