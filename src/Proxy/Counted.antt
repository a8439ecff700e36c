-- ===== src/Proxy/Counted.antt =====
-- How many sockets an entry of the pool of ProxyWSS/index.mjs counts.
use otmc_broker.Prelude.{
  ℕ, suc, ◌+◌, ◌-◌, ◌≤◌, Text, text_eq, text_eq_iff, text_eq_refl, Bool-cases, false, not, ◌&&◌,
  List, [], ◌∷◌, ◌++◌, Option-cases, some, inl, inr, ◌≡◌, ◌==◌, arith, get_elem?, All, All-append,
  if◌then◌else◌,
}
use otmc_broker.Map
use otmc_broker.Map.{Map}
use otmc_broker.Map.Entries.{AllEntries, set-AllEntries, delete-AllEntries}
use otmc_broker.Proxy.Data.{State, Entry, Bridge}
use otmc_broker.Proxy.Handlers.{add_bridge, new_bridge, bridge_of, without, on_close}
use otmc_broker.Proxy.Pool.{
  recount, release_backend_client, count_socket, drop_entry, count_socket, release_backend_client,
  clean_up,
}
use otmc_broker.Proxy.Bridges.{At, bridge_of-At, without-All}

unfoldable pub sockets_on : List Bridge → Text → ℕ
sockets_on [] id = 0
sockets_on (bridge ∷ bridges) id =
    let rest = sockets_on bridges id in if text_eq bridge.backend_id id then suc rest else rest

sockets_on_append :
    (before later : List Bridge) (id : Text)
    → sockets_on (before ++ later) id ≡ sockets_on before id + sockets_on later id
unfolding sockets_on
sockets_on_append [] later id = omega arith
sockets_on_append (b ∷ before) later id = ground (arith, sockets_on_append before later id)

module _ (bridges : List Bridge) (bridge : Bridge) where
  one_more :
      sockets_on (bridges ++ bridge ∷ []) bridge.backend_id
      ≡ suc (sockets_on bridges bridge.backend_id)
  unfolding sockets_on
  one_more = ground (
    arith,
    text_eq_refl bridge.backend_id,
    sockets_on_append bridges (bridge ∷ []) bridge.backend_id,
  )

  not_more :
      (id : Text)
      → text_eq bridge.backend_id id ≡ false
      → sockets_on (bridges ++ bridge ∷ []) id ≡ sockets_on bridges id
  unfolding sockets_on
  not_more id miss = ground (arith, miss, sockets_on_append bridges (bridge ∷ []) id)

  module _ (socket : ℕ) (at : At bridges socket bridge) where
    one_less :
        sockets_on bridges bridge.backend_id
        ≡ suc (sockets_on (without bridges socket) bridge.backend_id)
    unfolding sockets_on
    one_less =
        rw (at.others, at.all)
          (ground (
            arith,
            text_eq_refl bridge.backend_id,
            sockets_on_append at.before at.later bridge.backend_id,
            sockets_on_append at.before (bridge ∷ at.later) bridge.backend_id,
          ))

    not_less :
        (id : Text)
        → text_eq bridge.backend_id id ≡ false
        → sockets_on bridges id ≡ sockets_on (without bridges socket) id
    unfolding sockets_on
    not_less id miss =
        rw (at.others, at.all)
          (ground (
            arith,
            miss,
            sockets_on_append at.before at.later id,
            sockets_on_append at.before (bridge ∷ at.later) id,
          ))

module _ (s : State) where
  abbrev pub IsBounded : Text → Entry → Type 0
  IsBounded id entry = entry.ref_count ≤ sockets_on s.bridges id

  abbrev pub IsMade : Text → Entry → Type 0
  IsMade id entry = get_elem? s.clients entry.client ≡ some id

  abbrev pub IsBridged : Bridge → Type 0
  IsBridged bridge = get_elem? s.clients bridge.client ≡ some bridge.backend_id

  -- An entry counts no more sockets than have a bridge to its backend, its MQTT client is of its backend,
  -- and so is the MQTT client of each bridge.
  pub record IsCounted : Type 0 where
    pub bounded : AllEntries IsBounded s.pools
    pub made : AllEntries IsMade s.pools
    pub bridged : All IsBridged s.bridges

pub drop_entry-IsCounted :
    (id : Text) (entry : Entry) (s : State) → IsCounted s → IsCounted (drop_entry id entry s)
unfolding drop_entry
drop_entry-IsCounted id entry s v = record {
  bounded = delete-AllEntries (IsBounded s) s.pools id v.bounded;
  made = delete-AllEntries (IsMade s) s.pools id v.made;
  bridged = v.bridged;
}

pub clean_up-IsCounted : (id : Text) (s : State) → IsCounted s → IsCounted (clean_up id s)
unfolding clean_up
clean_up-IsCounted id s v = elim (Option-cases (Map.get s.pools id)) [
  | inl absent ↦ rw (absent, clean_up) v
  | inr (entry, present) ↦
      elim (Bool-cases (not (s.links entry.client).connected && entry.ref_count == 0)) [
        | inl unused ↦ rw (present, unused, clean_up) (drop_entry-IsCounted id entry s v)
        | inr used ↦ rw (present, used, clean_up) v
      ]
]

recount-AllEntries :
    (P Q : Text → Entry → Type 0) (f : ℕ → ℕ) (pools : Map Entry) (id : Text)
    → ((entry : Entry) → P id entry → Q id (record entry { ref_count = f entry.ref_count }))
    → ((j : Text) (entry : Entry) → text_eq id j ≡ false → P j entry → Q j entry)
    → AllEntries P pools
    → AllEntries Q (recount f (Map.get pools id) id pools)
recount-AllEntries P Q f pools id here others all = elim (Option-cases (Map.get pools id)) [
  | inl absent ↦ rw absent (λ j e found. elim (Bool-cases (text_eq id j)) [
    | inl hit ↦ absurd (ground (arith, found, absent, hit, text_eq_iff id j))
    | inr miss ↦ others j e miss (all j e found)
  ])
  | inr (entry, present) ↦
      rw present (set-AllEntries P Q pools id _ (here entry (all id entry present)) others all)
]

-- A new bridge with its entry.
pub add_bridge-IsCounted :
    (socket : ℕ) (id topic : Text) (client : ℕ) (s : State)
    → IsCounted s
    → get_elem? s.clients client ≡ some id
    → IsCounted (add_bridge socket id topic (some client, s))
unfolding add_bridge count_socket
add_bridge-IsCounted socket id topic client s v made = record {
  bounded =
      recount-AllEntries (IsBounded s) _ suc s.pools id
        (λ e b. rw (one_more s.bridges (new_bridge socket id topic client)) (omega (arith, b)))
        (λ j e miss b. rw (not_more s.bridges (new_bridge socket id topic client) j miss) b)
        v.bounded;
  made = recount-AllEntries (IsMade s) _ suc s.pools id (λ e m. m) (λ j e miss m. m) v.made;
  bridged = All-append (IsBridged s) s.bridges _ v.bridged (made, tt);
}

pub on_close-IsCounted :
    (bridge : Bridge) (s : State)
    → bridge_of s.bridges bridge.socket ≡ some bridge
    → IsCounted s
    → IsCounted (on_close bridge s)
unfolding on_close release_backend_client sockets_on
on_close-IsCounted bridge s e v =
    let at = bridge_of-At s.bridges bridge.socket bridge e in
    record {
      bounded =
          recount-AllEntries (IsBounded s) _ (λ n. n - 1) s.pools bridge.backend_id
            (λ e b. omega (arith, b, one_less s.bridges bridge bridge.socket at))
            (λ j e miss b. omega (arith, b, not_less s.bridges bridge bridge.socket at j miss))
            v.bounded;
      made =
          recount-AllEntries (IsMade s) _ (λ n. n - 1) s.pools bridge.backend_id (λ e m. m)
            (λ j e miss m. m) v.made;
      bridged = without-All (IsBridged s) s.bridges bridge.socket v.bridged;
    }
