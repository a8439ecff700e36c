-- ===== src/Proxy/Removal.antt =====
-- The timeouts of ProxyWSS/index.mjs remove an entry of the pool that is not used.
use otmc_broker.Prelude.{
  ℕ, zero, suc, Text, text_eq, text_eq_refl, Bool-cases, false, not, ◌&&◌, List, [], ◌∷◌, ◌++◌,
  Option-cases, none, some, inl, inr, ◌⊎◌, ◌≡◌, ◌==◌, refl, ap, ◌∙◌, get_elem?, length,
}
use otmc_broker.Map
use otmc_broker.Proxy.Data.{State, Entry}
use otmc_broker.Proxy.Pool.{drop_entry, clean_up}
use otmc_broker.Proxy.Handlers.{Library}
use otmc_broker.Proxy.{
  Event, lost, elapsed, running, on_lost, time_out, on_timeout, handle, step, run,
}

-- An entry that no socket counts on, whose MQTT client is not connected.
pub record IsUnused (s : State) (id : Text) (entry : Entry) : Type 0 where
  pub present : Map.get s.pools id ≡ some entry
  pub uncounted : entry.ref_count ≡ 0
  pub down : (s.links entry.client).connected ≡ false

abbrev IsIdle : Text → State → Type 0
IsIdle id s = (Map.get s.pools id ≡ none) ⊎ ((entry : Entry) × IsUnused s id entry)

clean_up_cases :
    (id : Text) (s : State)
    → (clean_up id s ≡ s) ⊎ ((entry : Entry) × (clean_up id s ≡ drop_entry id entry s))
unfolding clean_up
clean_up_cases id s = elim (Option-cases (Map.get s.pools id)) [
  | inl absent ↦ inl (rw (absent, clean_up) refl)
  | inr (entry, present) ↦
      elim (Bool-cases (not (s.links entry.client).connected && entry.ref_count == 0)) [
        | inl unused ↦ inr (entry, rw (present, unused, clean_up) refl)
        | inr used ↦ inl (rw (present, used, clean_up) refl)
      ]
]

-- The cleanup of one entry leaves an idle entry idle.
clean_up-IsIdle : (id j : Text) (s : State) → IsIdle id s → IsIdle id (clean_up j s)
unfolding drop_entry
clean_up-IsIdle id j s idle = elim (clean_up_cases j s) [
  | inl same ↦ rw same idle
  | inr (entry, e) ↦ rw e (elim (Bool-cases (text_eq j id)) [
    | inl hit ↦ inl (rw (Map.get-delete, hit) refl)
    | inr miss ↦ elim idle [
      | inl absent ↦ inl (rw (Map.get-delete, miss) absent)
      | inr (kept, u) ↦ inr (
        kept,
        record {
          present = rw (Map.get-delete, miss) u.present;
          uncounted = u.uncounted;
          down = u.down;
        },
      )
    ]
  ])
]

clean_up_own : (id : Text) (s : State) → IsIdle id s → Map.get (clean_up id s).pools id ≡ none
unfolding clean_up drop_entry
clean_up_own id s (inl absent) = rw (clean_up, absent) absent
clean_up_own id s (inr (entry, u)) =
    rw (clean_up, u.present, u.uncounted, u.down, drop_entry, Map.get-delete, text_eq_refl id) refl

clean_up-timeouts : (id : Text) (s : State) → (clean_up id s).timeouts ≡ s.timeouts
unfolding drop_entry
clean_up-timeouts id s = elim (clean_up_cases id s) [
  | inl same ↦ rw same refl
  | inr (entry, e) ↦ rw e refl
]

unfoldable pub elapses : ℕ → List Event
elapses zero = []
elapses (suc n) = elapsed ∷ elapses n

on_timeout_due :
    (s : State) (id : Text) (due : List Text)
    → s.timeouts ≡ id ∷ due
    → on_timeout s ≡ clean_up id (record s { timeouts = due })
unfolding on_timeout
on_timeout_due s id due e = ap (λ timeouts. time_out timeouts s) e

waiting-IsIdle :
    (id : Text) (s : State) (timeouts : List Text)
    → IsIdle id s
    → IsIdle id (record s { timeouts = timeouts })
waiting-IsIdle id s timeouts (inl absent) = inl absent
waiting-IsIdle id s timeouts (inr (entry, u)) =
    inr (entry, record { present = u.present; uncounted = u.uncounted; down = u.down })

on_lost_waits :
    (s : State) (client : ℕ) (id : Text)
    → get_elem? s.clients client ≡ some id
    → on_lost client s ≡ record s { timeouts = s.timeouts ++ id ∷ [] }
unfolding on_lost
on_lost_waits s client id own = rw (own, on_lost) refl

module _ (library : Library) where
  all_elapse :
      (id : Text) (due : List Text) (s : State)
      → IsIdle id s
      → s.timeouts ≡ due ++ id ∷ []
      → (s' : State) × (run library (running s) (elapses (suc (length due))) ≡ running s')
        × (Map.get s'.pools id ≡ none)
  unfolding elapses run step handle
  all_elapse id [] s idle due = (
    clean_up id (record s { timeouts = [] }),
    ap running (on_timeout_due s id [] due),
    clean_up_own id (record s { timeouts = [] }) (waiting-IsIdle id s [] idle),
  )
  all_elapse id (j ∷ due) s idle e =
      let waiting : State = record s { timeouts = due ++ id ∷ [] } in
      let (s', reached, gone) =
        all_elapse id due (clean_up j waiting)
          (clean_up-IsIdle id j waiting (waiting-IsIdle id s (due ++ id ∷ []) idle))
          (clean_up-timeouts j waiting) in
      (
        s',
        ap (λ t. run library (running t) (elapses (suc (length due))))
              (on_timeout_due s j (due ++ id ∷ []) e)
            ∙ reached,
        gone,
      )

  -- No socket counts on an entry of the pool, and its MQTT client is not connected. If an MQTT client that
  -- was made for the entry's backend now emits `close`, and the next events are that the timeouts which
  -- are due then elapse, those that were due before and the one of this `close`, with no other event
  -- between them, then the entry is gone.
  pub unused_is_removed :
      (s : State) (client : ℕ) (id : Text) (entry : Entry)
      → get_elem? s.clients client ≡ some id
      → IsUnused s id entry
      → (s' : State) × (run library (running s) (lost client ∷ elapses (suc (length s.timeouts)))
          ≡ running s')
        × (Map.get s'.pools id ≡ none)
  unfolding run step handle on_lost
  unused_is_removed s client id entry own u =
      let (s', reached, gone) =
        all_elapse id s.timeouts (record s { timeouts = s.timeouts ++ id ∷ [] })
          (waiting-IsIdle id s (s.timeouts ++ id ∷ []) (inr (entry, u))) refl in
      (
        s',
        ap (λ t. run library (running t) (elapses (suc (length s.timeouts))))
              (on_lost_waits s client id own)
            ∙ reached,
        gone,
      )
