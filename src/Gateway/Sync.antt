-- ===== src/Gateway/Sync.antt =====
-- What HAProxy_Gate/dynamic-backend/index.mjs does to the files of HAProxy.
use otmc_broker.Prelude.{
  ℕ, zero, suc, ◌+◌, Text, text_eq, text_eq_iff, text_eq_refl, Bool-cases, false, List, [], ◌∷◌,
  some, inl, inr, ◌≡◌, ◌≢◌, ◌∙◌, refl, arith, length, split, All, if◌then◌else◌,
}
use otmc_broker.Map
use otmc_broker.Map.{Map}
use otmc_broker.Map.Keys.{IsDistinct, has-All}
use otmc_broker.TextSet
use otmc_broker.Result.{Result, ok, err}
use otmc_broker.Gateway.Nodes.{Peer, Redis, get_all_backends}
use otmc_broker.Gateway.Haproxy.{
  State, Haproxy, ended, execute_runtime_command, matches, trim, concat, backend_file,
  generate_backend_config, list_current_backends, add_backend, reload_haproxy_config, reloads_after,
}
use otmc_broker.Gateway.Files.{IsPlainId, backend_file-injective}
use otmc_broker.Gateway.Nodes.Sound.{get_all_backends-IsDistinct}
use otmc_broker.Gateway.{add_missing, sync, running, main}

abbrev pub Backends : Type 0
Backends = List (Text × Peer)

-- The backends that HAProxy does not list.
unfoldable pub missing_from : List Text → Backends → Backends
missing_from current [] = []
missing_from current (backend ∷ backends) =
    let rest = missing_from current backends in
    if TextSet.has current backend.0 then rest else backend ∷ rest

missing_from-All {κ} :
    (P : Text × Peer → Type κ) (current : List Text) (backends : Backends)
    → All P backends
    → All P (missing_from current backends)
unfolding missing_from
missing_from-All P current [] all = tt
missing_from-All P current (backend ∷ backends) all =
    elim (Bool-cases (TextSet.has current backend.0)) [
      | inl there ↦ rw there (missing_from-All P current backends all.1)
      | inr absent ↦ rw absent (all.0, missing_from-All P current backends all.1)
    ]

-- How many of the next calls of `docker kill` do not fail.
abbrev pub successes : Haproxy → ℕ → ℕ → ℕ
successes haproxy n zero = 0
successes haproxy n (suc k) = reloads_after (haproxy.signal n) (successes haproxy (suc n) k)

reloads_after-add :
    (signalled : Result (Unit {0})) (a b : ℕ)
    → reloads_after signalled a + b ≡ a + reloads_after signalled b
reloads_after-add (ok tt) a b = omega arith
reloads_after-add (err thrown) a b = refl

-- Each of the backends has its file, no other file has changed, `docker kill` was run for each, and
-- HAProxy reloads for those calls that do not fail.
pub record Adds (haproxy : Haproxy) (backends : Backends) (s s' : State) : Type 0 where
  pub written :
      All
        (λ b. Map.get s'.files (backend_file b.0) ≡ some (generate_backend_config b.0 b.1))
        backends
  pub kept :
      (path : Text)
      → All (λ b. backend_file b.0 ≢ path) backends
      → Map.get s'.files path ≡ Map.get s.files path
  pub signalled : s'.signals ≡ s.signals + length backends
  pub reloaded : s'.reloads ≡ s.reloads + successes haproxy s.signals (length backends)

-- The files can be written, and the socket answers.
pub record IsWorking (haproxy : Haproxy) : Type 0 where
  pub writes : (path text : Text) → haproxy.write_file path text ≡ ok tt
  pub answers : (n : ℕ) → (haproxy.reply n).ending ≡ ended

module _ (haproxy : Haproxy) (works : IsWorking haproxy) where
  abbrev pub listed : ℕ → List Text
  listed n = matches (split b'\n' (trim (concat (haproxy.reply n).chunks)))

  list_current_backends_lem :
      (s : State)
      → list_current_backends haproxy s
        ≡ (ok (listed s.commands), record s { commands = suc s.commands })
  unfolding list_current_backends execute_runtime_command
  list_current_backends_lem s =
      rw (list_current_backends, execute_runtime_command, works.answers s.commands) refl

  abbrev pub with_backend : Text → Peer → State → State
  with_backend node_id peer s = record {
    files = Map.set s.files (backend_file node_id) (generate_backend_config node_id peer);
    commands = suc s.commands;
    signals = suc s.signals;
    reloads = reloads_after (haproxy.signal s.signals) s.reloads;
  }

  add_backend_lem :
      (node_id : Text) (peer : Peer) (s : State)
      → add_backend haproxy node_id peer s ≡ (ok tt, with_backend node_id peer s)
  unfolding add_backend reload_haproxy_config
  add_backend_lem node_id peer s =
      rw
        (
          add_backend,
          works.writes (backend_file node_id) (generate_backend_config node_id peer),
          list_current_backends_lem (record s {
            files = Map.set s.files (backend_file node_id) (generate_backend_config node_id peer);
            signals = suc s.signals;
            reloads = reloads_after (haproxy.signal s.signals) s.reloads;
          }),
        )
        refl

  abbrev ArePlain : Backends → Type 0
  ArePlain = All λ b. IsPlainId b.0

  -- The files of the others are not the file of the node.
  other_files :
      (node_id : Text) (backends : Backends)
      → IsPlainId node_id
      → ArePlain backends
      → All (λ b. b.0 ≢ node_id) backends
      → All (λ b. backend_file b.0 ≢ backend_file node_id) backends
  other_files node_id [] plain all others = tt
  other_files node_id (b ∷ backends) plain all others = (
    λ same. others.0 (backend_file-injective b.0 node_id all.0 plain same),
    other_files node_id backends plain all.1 others.1,
  )

  added_first :
      (node_id : Text) (peer : Peer) (backends : Backends) (s s' : State)
      → All (λ b. backend_file b.0 ≢ backend_file node_id) backends
      → Adds haproxy backends (with_backend node_id peer s) s'
      → Adds haproxy ((node_id, peer) ∷ backends) s s'
  added_first node_id peer backends s s' others adds = record {
    written = (
      adds.kept (backend_file node_id) others
          ∙ rw (Map.get-set, text_eq_refl (backend_file node_id)) refl,
      adds.written,
    );
    kept = λ path differ.
        let miss : text_eq (backend_file node_id) path ≡ false =
          ground (arith, differ.0, text_eq_iff (backend_file node_id) path) in
        adds.kept path differ.1 ∙ rw (Map.get-set, miss) refl;
    signalled = omega (arith, adds.signalled);
    reloaded =
        adds.reloaded
        ∙ reloads_after-add (haproxy.signal s.signals) s.reloads
            (successes haproxy (suc s.signals) (length backends));
  }

  add_missing_lem :
      (backends : Backends) (current : List Text) (s : State)
      → ArePlain backends
      → IsDistinct backends
      → (s' : State) × (add_missing haproxy backends current s ≡ (ok tt, s'))
        × Adds haproxy (missing_from current backends) s s'
  unfolding add_missing missing_from
  add_missing_lem [] current s plain distinct = (
    s,
    refl,
    record {
      written = tt;
      kept = λ path differ. refl;
      signalled = omega arith;
      reloaded = omega arith;
    },
  )
  add_missing_lem ((node_id, peer) ∷ backends) current s plain distinct =
      elim (Bool-cases (TextSet.has current node_id)) [
        | inl there ↦ rw (there) (add_missing_lem backends current s plain.1 distinct.1)
        | inr absent ↦
            let (s', e, adds) =
              add_missing_lem backends current (with_backend node_id peer s) plain.1 distinct.1 in
            rw absent (
              s',
              rw (add_backend_lem node_id peer s) e,
              added_first node_id peer (missing_from current backends) s s'
                  (other_files node_id _ plain.0 (missing_from-All _ current backends plain.1)
                    (missing_from-All _ current backends (has-All backends node_id distinct.0)))
                  adds,
            )
      ]

  module _ (redis : Redis) where
    -- If HAProxy's socket answers and its files can be written, one run of main writes the file of each
    -- node in Redis that HAProxy does not list, runs `docker kill` once for each of them, and changes no
    -- other file. HAProxy is told to reload as often as these calls do not fail; a failure does not stop
    -- the run. It is assumed that no node id has a slash.
    pub main-Adds :
        (backends : Backends) (s : State)
        → get_all_backends redis ≡ ok backends
        → All (λ b. IsPlainId b.0) backends
        → (s' : State) × (main haproxy redis (running s) ≡ running s')
          × Adds haproxy (missing_from (listed s.commands) backends) s s'
    unfolding main sync
    main-Adds backends s found plain =
        let s1 : State = record s { commands = suc s.commands } in
        let (s', e, adds) =
          add_missing_lem backends (listed s.commands) s1 plain
            (get_all_backends-IsDistinct redis backends found) in
        (
          s',
          rw (main, sync, found, list_current_backends_lem s, e) refl,
          record {
            written = adds.written;
            kept = adds.kept;
            signalled = adds.signalled;
            reloaded = adds.reloaded;
          },
        )
