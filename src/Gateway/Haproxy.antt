-- ===== src/Gateway/Haproxy.antt =====
-- HAProxy_Gate/dynamic-backend/backend_in_haproxy.mjs: the backends of HAProxy. The answers of its
-- socket, and whether a file can be written or removed, are parameters.
use otmc_broker.Prelude.{
  not, ℕ, suc, Text, codes, is_empty, Bool, ◌||◌, ◌&&◌, List, [], ◌∷◌, ◌++◌, take, Option, none,
  some, split, ltb, ◌==◌, if◌then◌else◌,
}
use otmc_broker.Map
use otmc_broker.Map.{Map}
use otmc_broker.Result.{Result, ok, err, library_error}
use otmc_broker.Json.{key_text}
use otmc_broker.Capture.{capture}
use otmc_broker.Effect.{Effect, pure, lift, gets, modify, ◌>>=◌, ◌>>◌}
use otmc_broker.Gateway.Nodes.{Peer}
use otmc_broker.Gateway.Paths.{join_path}

-- `\s` of regular expressions, which `trim` takes away too.
unfoldable pub is_space : ℕ → Bool
is_space c =
    (ltb 8 c && ltb c 14)
    || c == 32
    || c == 160
    || c == 5760
    || (ltb 8191 c && ltb c 8203)
    || c == 8232
    || c == 8233
    || c == 8239
    || c == 8287
    || c == 12288
    || c == 65279

unfoldable pub trim_start : Text → Text
trim_start [] = []
trim_start (c ∷ s) = let rest = trim_start s in if is_space c then rest else c ∷ s

unfoldable pub trim_end : Text → Text
trim_end [] = []
trim_end (c ∷ s) = let rest = trim_end s in if is_empty rest && is_space c then [] else c ∷ rest

unfoldable pub trim : Text → Text
unfolding trim_start trim_end
trim s = trim_start (trim_end s)

-- `line.match(/mqtt_backend_(\S+)/)`, the group.
unfoldable pub match_line : Text → Option Text
unfolding capture is_space
match_line line = capture (codes "mqtt_backend_") (λ c. not (is_space c)) line

abbrev pub push_match : Option Text → List Text → List Text
push_match none backends = backends
push_match (some id) backends = id ∷ backends

unfoldable pub matches : List Text → List Text
unfolding match_line
matches [] = []
matches (line ∷ lines) = let rest = matches lines in push_match (match_line line) rest

-- What comes on the socket, in chunks, and how it ends.
pub data Ending : Type 0 where
  ended failed timed_out : Ending

pub record Reply : Type 0 where
  pub chunks : List Text
  pub ending : Ending

unfoldable pub concat : List Text → Text
concat [] = []
concat (chunk ∷ chunks) = chunk ++ concat chunks

-- `executeRuntimeCommand`, whose answer does not depend on anything else that the process does.
unfoldable pub execute_runtime_command : Reply → Result Text
unfolding concat trim
execute_runtime_command reply = elim reply.ending [
  | ended ↦ ok (trim (concat reply.chunks))
  | failed ↦ err library_error
  | timed_out ↦ err library_error
]

unfoldable pub generate_backend_config : Text → Peer → Text
generate_backend_config node_id peer =
    codes "backend mqtt_backend_"
    ++ node_id
    ++ codes "\n    mode tcp\n    server mqtt_broker_"
    ++ take 10 node_id
    ++ codes " ["
    ++ key_text peer.host
    ++ codes "]:"
    ++ key_text peer.port
    ++ codes
        " ssl ca-file /usr/local/etc/certs/internal_cert/internal-root.crt crt /usr/local/etc/certs/internal_cert/internal-client.crt.key.pem verify required\n"

-- The files, how many commands were sent to the socket, and how often `docker kill` was run and how
-- often it signalled HAProxy to reload.
pub record State : Type 0 where
  pub files : Map Text
  pub commands : ℕ
  pub signals : ℕ
  pub reloads : ℕ

-- The answer to each command, and what `writeFileSync`, `rmSync` and each `docker kill` throw.
pub record Haproxy : Type 0 where
  pub reply : ℕ → Reply
  pub write_file : Text → Text → Result (Unit {0})
  pub remove_file : Text → Result (Unit {0})
  pub signal : ℕ → Result (Unit {0})

-- `config.haproxy.haproxyBackendPath`.
abbrev pub backend_path : Text
backend_path = codes "/usr/local/etc/haproxy/backends"

unfoldable pub backend_file : Text → Text
unfolding join_path
backend_file node_id = join_path backend_path (codes "mqtt_backend_" ++ node_id ++ codes ".cfg")

-- The reloads so far, after one more `docker kill`.
abbrev pub reloads_after : Result (Unit {0}) → ℕ → ℕ
reloads_after (ok tt) reloads = suc reloads
reloads_after (err thrown) reloads = reloads

module _ (haproxy : Haproxy) where
  open haproxy use {reply, write_file, remove_file, signal}

  -- What is thrown is caught, so that the caller goes on as after a reload.
  unfoldable pub reload_haproxy_config : Effect State (Unit {0})
  reload_haproxy_config = do
    n ← gets λ s. s.signals
    modify λ s. record s { signals = suc s.signals; reloads = reloads_after (signal n) s.reloads }

  unfoldable pub list_current_backends : Effect State (List Text)
  unfolding execute_runtime_command matches
  list_current_backends = do
    n ← gets λ s. s.commands
    modify λ s. record s { commands = suc s.commands }
    result ← lift (execute_runtime_command (reply n))
    pure (matches (split b'\n' result))

  unfoldable pub add_backend : Text → Peer → Effect State (Unit {0})
  unfolding generate_backend_config backend_file reload_haproxy_config list_current_backends
  add_backend node_id peer = do
    lift (write_file (backend_file node_id) (generate_backend_config node_id peer))
    modify λ s. record s {
      files = Map.set s.files (backend_file node_id) (generate_backend_config node_id peer);
    }
    reload_haproxy_config
    current ← list_current_backends
    pure tt

  unfoldable pub delete_backend : Text → Effect State (Unit {0})
  unfolding backend_file reload_haproxy_config list_current_backends
  delete_backend node_id = do
    there ← gets λ s. Map.has s.files (backend_file node_id)
    (if there
        then (do
          lift (remove_file (backend_file node_id))
          modify λ s. record s { files = Map.delete s.files (backend_file node_id) })
        else pure tt)
    reload_haproxy_config
    current ← list_current_backends
    pure tt
