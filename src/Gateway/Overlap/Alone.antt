-- ===== src/Gateway/Overlap/Alone.antt =====
-- A run of main that no other run interrupts.
use otmc_broker.Prelude.{
  suc, Text, Bool-cases, List, [], ◌∷◌, inl, inr, ◌≡◌, refl, subst, sym, split,
}
use otmc_broker.TextSet
use otmc_broker.Result.{Result, Error, ok, err, Result-cases}
use otmc_broker.Effect.{pure, ◌>>=◌, ◌>>◌}
use otmc_broker.Gateway.Nodes.{Peer, Redis, get_all_backends}
use otmc_broker.Gateway.Haproxy.{
  Haproxy, State, backend_file, generate_backend_config, reload_haproxy_config,
  execute_runtime_command, matches, list_current_backends, add_backend,
}
use otmc_broker.Gateway.{add_missing, sync}
use otmc_broker.Gateway.Overlap.{
  Phase, reading, done, listing, reloading, relisting, send_command, add_next, resume,
}

module _ (haproxy : Haproxy) (redis : Redis) where
  -- The run goes from its phase to its end, and ends with this result in this state.
  pub data Ends : Phase → State → Result (Unit {0}) × State → Type 0 where
    stops : (s : State) → Ends done s (ok tt, s)
    throws :
        (phase : Phase) (s s' : State) (thrown : Error)
        → resume haproxy redis phase s ≡ (err thrown, s')
        → Ends phase s (err thrown, s')
    goes :
        (phase next : Phase) (s s' : State) (end : Result (Unit {0}) × State)
        → resume haproxy redis phase s ≡ (ok next, s')
        → Ends next s' end
        → Ends phase s end

  -- The same for the loop, which is in a phase only after its next section.
  abbrev EndsAfter : Result Phase × State → Result (Unit {0}) × State → Type 0
  EndsAfter (ok next, s) end = Ends next s end
  EndsAfter (err thrown, s) end = end ≡ (err thrown, s)

  resume-Ends :
      (phase : Phase) (s : State) (r : Result Phase × State) (end : Result (Unit {0}) × State)
      → resume haproxy redis phase s ≡ r
      → EndsAfter r end
      → Ends phase s end
  resume-Ends phase s (ok next, s') end e h = goes phase next s s' end e h
  resume-Ends phase s (err thrown, s') end e h =
      subst (Ends phase s) (sym h) (throws phase s s' thrown e)

  -- From the end of a reload on, if what follows in the loop ends as it should.
  reloading-Ends :
      (backends : List (Text × Peer)) (current : List Text) (s : State)
      → ((s' : State)
          → EndsAfter
              (add_next haproxy backends current s')
              (add_missing haproxy backends current s'))
      → Ends (reloading backends current) s (
          ((list_current_backends haproxy >>= λ listed. pure tt)
              >> add_missing haproxy backends current)
            s)
  unfolding resume send_command list_current_backends
  reloading-Ends backends current s rest =
      let sent : State = record s { commands = suc s.commands } in
      goes (reloading backends current) (relisting s.commands backends current) s sent _ refl
        (elim (Result-cases (execute_runtime_command (haproxy.reply s.commands))) [
          | inr (thrown, e) ↦
              resume-Ends (relisting s.commands backends current) sent (err thrown, sent) _
                (rw e refl) (rw e refl)
          | inl (result, e) ↦
              resume-Ends (relisting s.commands backends current) sent
                (add_next haproxy backends current sent) _ (rw e refl) (rw e (rest sent))
        ])

  -- The loop from its next section on ends as `add_missing` does.
  add_next-Ends :
      (backends : List (Text × Peer)) (current : List Text) (s : State)
      → EndsAfter (add_next haproxy backends current s) (add_missing haproxy backends current s)
  unfolding add_next add_missing add_backend reload_haproxy_config
  add_next-Ends [] current s = stops s
  add_next-Ends ((node_id, peer) ∷ backends) current s =
      elim (Bool-cases (TextSet.has current node_id)) [
        | inl there ↦ rw there (add_next-Ends backends current s)
        | inr absent ↦
            elim (Result-cases
              (haproxy.write_file (backend_file node_id) (generate_backend_config node_id peer))) [
                | inr (thrown, e) ↦ rw (absent, e) refl
                | inl (t, e) ↦
                    rw (absent, e)
                      (reloading-Ends backends current _ (add_next-Ends backends current))
              ]
      ]

  -- A run of main that goes through its sections with no other run between them comes to an end, with
  -- the result and in the state of `main` as one piece.
  pub sync-Ends : (s : State) → Ends reading s (sync haproxy redis s)
  unfolding sync resume send_command list_current_backends
  sync-Ends s = elim (Result-cases (get_all_backends redis)) [
    | inr (thrown, e) ↦ resume-Ends reading s (err thrown, s) _ (rw e refl) (rw e refl)
    | inl (backends, e) ↦
        let sent : State = record s { commands = suc s.commands } in
        resume-Ends reading s (ok (listing s.commands backends), sent) _ (rw e refl)
          (rw e (elim (Result-cases (execute_runtime_command (haproxy.reply s.commands))) [
            | inr (thrown, e') ↦
                resume-Ends (listing s.commands backends) sent (err thrown, sent) _ (rw e' refl)
                  (rw e' refl)
            | inl (result, e') ↦
                resume-Ends (listing s.commands backends) sent
                  (add_next haproxy backends (matches (split b'\n' result)) sent) _ (rw e' refl)
                  (rw e' (add_next-Ends backends (matches (split b'\n' result)) sent))
          ]))
  ]
