-- ===== src/Gateway/Overlap/Complete.antt =====
-- What a run of HAProxy_Gate/dynamic-backend/index.mjs has done when it ends, however other runs overlap
-- with it.
use otmc_broker.Prelude.{
  ℕ, zero, suc, Text, text_eq, text_eq_refl, Bool-cases, ◌==◌, ==_iff, Option-cases, true, List, [],
  ◌∷◌, some, inl, inr, ◌≡◌, ◌≢◌, ◌⊎◌, ◌∙◌, refl, ap, sym, subst, arith, get_elem?, get_elem?-append,
  All, All_map, Any, Any_member, split,
}
use mathlib.Core.Option.{some-injective}
use otmc_broker.Map
use otmc_broker.Map.Keys.{has-set}
use otmc_broker.TextSet
use otmc_broker.Result.{Result, ok, err, Result-cases}
use otmc_broker.Gateway.Nodes.{Peer, Redis}
use otmc_broker.Gateway.Haproxy.{
  Haproxy, State, backend_file, generate_backend_config, reload_haproxy_config,
  execute_runtime_command, matches,
}
use otmc_broker.Gateway.Overlap.{
  Phase, reading, done, listing, reloading, relisting, send_command, add_next, resume, set_elem,
  Runs, running, exited, Event, message, resumed, after, step, run,
}
use otmc_broker.Gateway.Overlap.Files.{HasFile, resume-IsKept}

abbrev Backends : Type 0
Backends = List (Text × Peer)

-- The backends that an answer lists.
abbrev pub listed_in : Result Text → List Text
listed_in (ok answer) = matches (split b'\n' answer)
listed_in (err thrown) = []

module _ (haproxy : Haproxy) (n : ℕ) (backends : Backends) where
  -- The backends that HAProxy listed for the run.
  abbrev pub current : List Text
  current = listed_in (execute_runtime_command (haproxy.reply n))

  -- The backend was listed, or has its file, or is still to come in the loop.
  abbrev IsSafe : State → Backends → Text × Peer → Type 0
  IsSafe s rest b =
      (TextSet.has current b.0 ≡ true)
      ⊎ (HasFile haproxy (backend_file b.0) s ⊎ Any (λ x. x ≡ b) rest)

  abbrev Progress : State → Phase → Type 0
  Progress s reading = ⊥
  Progress s (listing m found) = (m ≡ n) × (found ≡ backends)
  Progress s (reloading rest listed) = (listed ≡ current) × All (IsSafe s rest) backends
  Progress s (relisting m rest listed) = (listed ≡ current) × All (IsSafe s rest) backends
  Progress s done = All (IsSafe s []) backends

  abbrev AfterNext : Result Phase × State → Type 0
  AfterNext (ok phase, s) = Progress s phase
  AfterNext (err thrown, s) = Unit

  skipped :
      (s : State) (b : Text × Peer) (rest : Backends)
      → TextSet.has current b.0 ≡ true
      → (x : Text × Peer) → IsSafe s (b ∷ rest) x
      → IsSafe s rest x
  skipped s b rest there x (inl listed) = inl listed
  skipped s b rest there x (inr (inl file)) = inr (inl file)
  skipped s b rest there x (inr (inr (inl same))) =
      inl (subst (λ y. TextSet.has current y.0 ≡ true) same there)
  skipped s b rest there x (inr (inr (inr later))) = inr (inr later)

  abbrev written : Text → Peer → State → State
  written node_id peer s = record s {
    files = Map.set s.files (backend_file node_id) (generate_backend_config node_id peer);
  }

  written-HasFile :
      (node_id : Text) (peer : Peer) (s : State) (path : Text)
      → (text_eq (backend_file node_id) path ≡ true) ⊎ HasFile haproxy path s
      → HasFile haproxy path (written node_id peer s)
  written-HasFile node_id peer s path h =
      ground (
        arith,
        h,
        has-set s.files (backend_file node_id) (generate_backend_config node_id peer) path,
      )

  added :
      (s : State) (b : Text × Peer) (rest : Backends) (x : Text × Peer)
      → IsSafe s (b ∷ rest) x
      → IsSafe (written b.0 b.1 s) rest x
  added s b rest x (inl listed) = inl listed
  added s b rest x (inr (inl file)) =
      inr (inl (written-HasFile b.0 b.1 s (backend_file x.0) (inr file)))
  added s b rest x (inr (inr (inl same))) = inr (
      inl (
        subst (λ y. HasFile haproxy (backend_file y.0) (written b.0 b.1 s)) same
          (written-HasFile b.0 b.1 s (backend_file b.0) (inl (text_eq_refl (backend_file b.0))))))
  added s b rest x (inr (inr (inr later))) = inr (inr later)

  add_next-Progress :
      (rest : Backends) (s : State)
      → All (IsSafe s rest) backends
      → AfterNext (add_next haproxy rest current s)
  unfolding add_next reload_haproxy_config
  add_next-Progress [] s safe = safe
  add_next-Progress ((node_id, peer) ∷ rest) s safe =
      elim (Bool-cases (TextSet.has current node_id)) [
        | inl there ↦ rw there (
            add_next-Progress rest s
              (All_map _ _ backends (skipped s (node_id, peer) rest there) safe))
        | inr absent ↦
            elim (Result-cases
              (haproxy.write_file (backend_file node_id) (generate_backend_config node_id peer))) [
                | inr (thrown, e) ↦ rw (absent, e) tt
                | inl (t, e) ↦
                    rw (absent, e) (refl, All_map _ _ backends (added s (node_id, peer) rest) safe)
              ]
      ]

  first_section :
      (s : State) (answer : Text)
      → execute_runtime_command (haproxy.reply n) ≡ ok answer
      → AfterNext (add_next haproxy backends (matches (split b'\n' answer)) s)
  first_section s answer e =
      subst (λ listed. AfterNext (add_next haproxy backends listed s)) (ap listed_in e)
        (add_next-Progress backends s
          (All_map _ _ backends (λ x here. inr (inr here)) (Any_member backends)))

  -- The run's own next section.
  resume-Progress :
      (redis : Redis) (phase : Phase) (s : State)
      → Progress s phase
      → AfterNext (resume haproxy redis phase s)
  unfolding resume send_command
  resume-Progress redis reading s p = absurd p
  resume-Progress redis (listing m found) s (same, all) =
      elim (Result-cases (execute_runtime_command (haproxy.reply n))) [
        | inr (thrown, e) ↦ rw (same, e) tt
        | inl (answer, e) ↦ rw (same, all, e) (first_section s answer e)
      ]
  resume-Progress redis (reloading rest listed) s p = p
  resume-Progress redis (relisting m rest listed) s (same, safe) =
      elim (Result-cases (execute_runtime_command (haproxy.reply m))) [
        | inr (thrown, e) ↦ rw e tt
        | inl (answer, e) ↦ rw (e, same) (add_next-Progress rest s safe)
      ]
  resume-Progress redis done s p = p

  IsSafe-kept :
      (s s' : State) (rest : Backends)
      → ((path : Text) → HasFile haproxy path s → HasFile haproxy path s')
      → (x : Text × Peer) → IsSafe s rest x
      → IsSafe s' rest x
  IsSafe-kept s s' rest kept x (inl listed) = inl listed
  IsSafe-kept s s' rest kept x (inr (inl file)) = inr (inl (kept (backend_file x.0) file))
  IsSafe-kept s s' rest kept x (inr (inr later)) = inr (inr later)

  -- A section of another run.
  Progress-kept :
      (s s' : State) (phase : Phase)
      → ((path : Text) → HasFile haproxy path s → HasFile haproxy path s')
      → Progress s phase
      → Progress s' phase
  Progress-kept s s' reading kept p = p
  Progress-kept s s' (listing m found) kept p = p
  Progress-kept s s' (reloading rest listed) kept p =
      (p.0, All_map _ _ backends (IsSafe-kept s s' rest kept) p.1)
  Progress-kept s s' (relisting m rest listed) kept p =
      (p.0, All_map _ _ backends (IsSafe-kept s s' rest kept) p.1)
  Progress-kept s s' done kept p = All_map _ _ backends (IsSafe-kept s s' [] kept) p

  set_elem-own :
      (runs : List Phase) (i : ℕ) (old new : Phase)
      → get_elem? runs i ≡ some old
      → get_elem? (set_elem runs i new) i ≡ some new
  set_elem-own [] i old new e = cc
  set_elem-own (p ∷ runs) zero old new e = refl
  set_elem-own (p ∷ runs) (suc i) old new e = set_elem-own runs i old new e

  set_elem-other :
      (runs : List Phase) (i j : ℕ) (new : Phase)
      → i ≢ j
      → get_elem? (set_elem runs j new) i ≡ get_elem? runs i
  set_elem-other [] i j new differ = refl
  set_elem-other (p ∷ runs) zero zero new differ = absurd (differ refl)
  set_elem-other (p ∷ runs) zero (suc j) new differ = refl
  set_elem-other (p ∷ runs) (suc i) zero new differ = refl
  set_elem-other (p ∷ runs) (suc i) (suc j) new differ =
      set_elem-other runs i j new (λ e. differ (ap suc e))

  module _ (i : ℕ) where
    abbrev Keeps : Runs → Type 0
    Keeps (running runs s) = (phase : Phase) × (get_elem? runs i ≡ some phase) × Progress s phase
    Keeps (exited s) = Unit

    after_own :
        (runs : List Phase) (old : Phase) (result : Result Phase × State)
        → get_elem? runs i ≡ some old
        → AfterNext result
        → Keeps (after runs i result)
    after_own runs old (err thrown, s) e p = tt
    after_own runs old (ok phase, s) e p = (phase, set_elem-own runs i old phase e, p)

    after_other :
        (runs : List Phase) (j : ℕ) (phase : Phase) (s : State) (result : Result Phase × State)
        → i ≢ j
        → get_elem? runs i ≡ some phase
        → Progress s phase
        → ((path : Text) → HasFile haproxy path s → HasFile haproxy path result.1)
        → Keeps (after runs j result)
    after_other runs j phase s (err thrown, s') differ e p kept = tt
    after_other runs j phase s (ok new, s') differ e p kept =
        (phase, rw (set_elem-other runs i j new differ) e, Progress-kept s s' phase kept p)

    resumed_Keeps :
        (redis : Redis) (runs : List Phase) (s : State) (j : ℕ) (next phase : Phase)
        → get_elem? runs j ≡ some next
        → get_elem? runs i ≡ some phase
        → Progress s phase
        → Keeps (after runs j (resume haproxy redis next s))
    resumed_Keeps redis runs s j next phase at_j at_i p = elim (Bool-cases (i == j)) [
      | inl same ↦
          let same_place : i ≡ j = (==_iff i j).0 same in
          let same_phase : phase ≡ next =
            some-injective phase next (sym at_i ∙ rw same_place at_j) in
          subst (λ k. Keeps (after runs k (resume haproxy redis next s))) same_place
            (after_own runs phase (resume haproxy redis next s) at_i (
              subst (λ q. AfterNext (resume haproxy redis q s)) same_phase
                (resume-Progress redis phase s p)))
      | inr other ↦
          after_other runs j phase s (resume haproxy redis next s)
            (λ e. ground (arith, other, e, ==_iff i j)) at_i p
            (λ path. resume-IsKept haproxy path redis next s)
    ]

    step-Keeps : (p : Runs) (event : Event) → Keeps p → Keeps (step haproxy p event)
    unfolding step
    step-Keeps (exited s) event k = tt
    step-Keeps (running runs s) message (phase, e, p) =
        (phase, get_elem?-append runs (reading ∷ []) i phase e, p)
    step-Keeps (running runs s) (resumed j redis) (phase, e, p) =
        elim (Option-cases (get_elem? runs j)) [
          | inl absent ↦ rw (step, absent) (phase, e, p)
          | inr (next, at_j) ↦ rw (step, at_j) (resumed_Keeps redis runs s j next phase at_j e p)
        ]

    run-Keeps : (p : Runs) (events : List Event) → Keeps p → Keeps (run haproxy p events)
    unfolding run
    run-Keeps p [] k = k
    run-Keeps p (event ∷ events) k = run-Keeps (step haproxy p event) events (step-Keeps p event k)

    done-Progress :
        (s : State) (phase : Phase) → some phase ≡ some done → Progress s phase → Progress s done
    done-Progress s phase e p = subst (Progress s) (some-injective phase done e) p

    finished :
        (s : State) (b : Text × Peer)
        → IsSafe s [] b
        → (TextSet.has current b.0 ≡ true) ⊎ HasFile haproxy (backend_file b.0) s
    finished s b (inl listed) = inl listed
    finished s b (inr (inl file)) = inr file
    finished s b (inr (inr none_left)) = absurd none_left

    -- Runs of main overlap, and one of them waits for the list of backends, with the nodes that Redis gave
    -- it. Whatever messages come and whichever runs go on, in whatever order: if then the process still
    -- runs and this run is done, each of its nodes is one that HAProxy listed in the reply that the run
    -- waited for, or has its file.
    pub done_has_files :
        (runs later : List Phase) (s s' : State) (events : List Event)
        → get_elem? runs i ≡ some (listing n backends)
        → run haproxy (running runs s) events ≡ running later s'
        → get_elem? later i ≡ some done
        → All
            (λ b. (TextSet.has current b.0 ≡ true) ⊎ (Map.has s'.files (backend_file b.0) ≡ true))
            backends
    done_has_files runs later s s' events waits reached is_done =
        let (phase, e, p) : Keeps (running later s') =
          subst Keeps reached
            (run-Keeps (running runs s) events (listing n backends, waits, (refl, refl))) in
        All_map _ _ backends (finished s') (done-Progress s' phase (sym e ∙ is_done) p)
