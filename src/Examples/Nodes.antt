-- ===== src/Examples/Nodes.antt =====
-- A node in Redis that becomes a backend of HAProxy.
use otmc_broker.Prelude.{
  Text, true, refl, true, codes, text_eq, List, [], ◌∷◌, map, none, some, All, ◌⊎◌, join, split,
  ◌≡◌, refl, arith, if◌then◌else◌,
}
use otmc_broker.Map
use otmc_broker.Map.{Map}
use otmc_broker.Map.Entries.{AllEntries}
use otmc_broker.Result.{ok}
use otmc_broker.Json.{Value, string, array, object, nil, cons, end, field}
use otmc_broker.Gateway.Nodes.{Peer, Redis, endpoints_key, endpoint_key, get_all_backends}
use otmc_broker.Gateway.Nodes.Sound.{IsList, IsNode, get_all_backends_sound}
use otmc_broker.Gateway.Haproxy.{
  Haproxy, State, ended, matches, backend_file, generate_backend_config,
}
use otmc_broker.Gateway.Sync.{IsWorking, Adds, listed, missing_from, main-Adds}
use otmc_broker.Gateway.Listed.{IsWord, line_of, matches-lines}
use otmc_broker.Gateway.Overlap
use otmc_broker.Gateway.Overlap.{Runs, running, reading, done, listing, Event, message, resumed}
use otmc_broker.Gateway.Overlap.Files.{overlap-HasFile}
use otmc_broker.Gateway.Overlap.Complete.{current, done_has_files}
use otmc_broker.TextSet
use otmc_broker.Gateway
use otmc_broker.Gateway.{main, sync}

abbrev node_value : Value
node_value = object (
    field (codes "host") (string (codes "h")) (
      field (codes "port") (string (codes "1")) (field (codes "nodeId") (string (codes "n1")) end)))

abbrev redis : Redis
redis = record {
  get = λ key.
      if text_eq key endpoints_key
      then ok (some (codes "list"))
      else if text_eq key (endpoint_key (codes "n1"))
      then ok (some (codes "node"))
      else ok none;
  parse_json = λ t.
      if text_eq t (codes "list")
      then some (array (cons node_value nil))
      else if text_eq t (codes "node")
      then some node_value
      else none;
}

abbrev pub haproxy : Haproxy
haproxy = record {
  reply = λ n. record { chunks = codes "# name\nmqtt_backend_n0\n" ∷ []; ending = ended };
  write_file = λ path text. ok tt;
  signal = λ n. ok tt;
  remove_file = λ path. ok tt;
}

pub works : IsWorking haproxy
works = record { writes = λ path text. refl; answers = λ n. refl }

abbrev backends : Map Peer
backends =
    (codes "n1", record { host = some (string (codes "h")); port = some (string (codes "1")) }) ∷ []

found_backends : get_all_backends redis ≡ ok backends
unfolding get_all_backends text_eq otmc_broker.Json.iterate otmc_broker.Json.property
    otmc_broker.Json.key_text otmc_broker.Json.field_value otmc_broker.Json.to_text
    otmc_broker.Json.truthy otmc_broker.Map.get otmc_broker.TextSet.has otmc_broker.Map.set
found_backends = refl

abbrev pub before : State
before = record { files = []; commands = 0; signals = 0; reloads = 0 }

main-Adds_example :
    (s' : State) × (main haproxy redis (Gateway.running before) ≡ Gateway.running s')
    × Adds haproxy (missing_from (listed haproxy works 0) backends) before s'
main-Adds_example =
    main-Adds haproxy works redis backends before found_backends
      ((λ e. omega (arith, e), (λ e. omega (arith, e), tt)), tt)

get_all_backends_sound_example :
    (endpoints : List Value) × IsList redis endpoints × AllEntries (IsNode redis endpoints) backends
get_all_backends_sound_example = get_all_backends_sound redis backends found_backends

n1 : IsWord (codes "n1")
unfolding otmc_broker.Gateway.Haproxy.is_space
n1 = record { not_empty = refl; no_space = (refl, (refl, tt)) }

matches-lines_example :
    matches (split b'\n' (join b'\n' (map line_of (codes "n1" ∷ codes "n1" ∷ []))))
    ≡ codes "n1" ∷ codes "n1" ∷ []
matches-lines_example = matches-lines (codes "n1" ∷ codes "n1" ∷ []) (n1, (n1, tt))

-- A file that is there before two runs.
abbrev old_path : Text
old_path = codes "/old.cfg"

abbrev with_old : Runs
with_old = running (reading ∷ []) (record before { files = (old_path, codes "x") ∷ [] })

old_there : Map.has (Overlap.state with_old).files old_path ≡ true
unfolding Map.has Map.get text_eq
old_there = refl

-- Two runs that overlap: the second is at its first section while the first goes on.
abbrev overlapping : List Event
overlapping =
    message
    ∷ resumed 0 redis
    ∷ resumed 1 redis
    ∷ resumed 0 redis
    ∷ resumed 1 redis
    ∷ resumed 0 redis
    ∷ []

overlap-HasFile_example :
    Map.has (Overlap.state (Overlap.run haproxy with_old overlapping)).files old_path ≡ true
overlap-HasFile_example = overlap-HasFile haproxy old_path with_old overlapping old_there

-- The first run waits for the list; a second one starts, reads from Redis and waits while the first goes
-- on to its end.
abbrev in_between : List Event
in_between = resumed 0 redis ∷ message ∷ resumed 1 redis ∷ resumed 0 redis ∷ resumed 0 redis ∷ []

abbrev one_sent : State
one_sent = record before { commands = 1 }

abbrev at_end : State
at_end = record {
  files =
      (
        backend_file (codes "n1"),
        generate_backend_config (codes "n1")
            (record { host = some (string (codes "h")); port = some (string (codes "1")) }),
      )
      ∷ [];
  commands = 3;
  signals = 1;
  reloads = 1;
}

goes_to_end :
    Overlap.run haproxy (running (listing 0 backends ∷ []) one_sent) in_between
    ≡ running (done ∷ listing 1 backends ∷ []) at_end
unfolding Overlap.run TextSet.has split text_eq otmc_broker.Json.iterate otmc_broker.Json.property
    otmc_broker.Json.key_text otmc_broker.Json.field_value otmc_broker.Json.to_text
    otmc_broker.Json.truthy Map.get Map.set
goes_to_end = refl

done_has_files_example :
    All
      (λ b.
        (TextSet.has (current haproxy 0 backends) b.0 ≡ true)
        ⊎ (Map.has at_end.files (backend_file b.0) ≡ true))
      backends
done_has_files_example =
    done_has_files haproxy 0 backends 0 (listing 0 backends ∷ []) (done ∷ listing 1 backends ∷ [])
      one_sent at_end in_between refl goes_to_end refl
