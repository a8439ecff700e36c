-- ===== src/Gateway/Files.antt =====
-- The file that HAProxy_Gate/dynamic-backend/backend_in_haproxy.mjs has for a node.
use mathlib.Core.List.{append_cancel_left, append_cancel_right}
use otmc_broker.Prelude.{
  Text, codes, text_eq, split, split_lem, Avoids, All-append, ◌++◌, ◌≡◌, ◌∙◌, refl, sym, arith,
}
use otmc_broker.Gateway.Paths.{resolve, absolute, join_path}
use otmc_broker.Gateway.Haproxy.{backend_path, backend_file}

-- A node id with no slash; the ids that a broker makes are in base58.
abbrev pub IsPlainId : Text → Type 0
IsPlainId node_id = Avoids b'/' node_id

file_name-Avoids :
    (node_id : Text)
    → IsPlainId node_id
    → Avoids b'/' (codes "mqtt_backend_" ++ node_id ++ codes ".cfg")
file_name-Avoids node_id plain =
    All-append _ (codes "mqtt_backend_") _ (ground arith)
      (All-append _ node_id (codes ".cfg") plain (ground arith))

-- It is in the folder of the backends.
pub backend_file-plain :
    (node_id : Text)
    → IsPlainId node_id
    → backend_file node_id ≡ backend_path ++ codes "/mqtt_backend_" ++ node_id ++ codes ".cfg"
unfolding backend_file join_path resolve absolute split text_eq
backend_file-plain node_id plain =
    rw
      (split_lem b'/' (codes "mqtt_backend_" ++ node_id ++ codes ".cfg")
        (file_name-Avoids node_id plain))
      refl

pub backend_file-injective :
    (node_id other : Text)
    → IsPlainId node_id
    → IsPlainId other
    → backend_file node_id ≡ backend_file other
    → node_id ≡ other
backend_file-injective node_id other plain plain' e =
    append_cancel_right node_id other (codes ".cfg") (
      append_cancel_left (codes "/mqtt_backend_") (node_id ++ codes ".cfg") (other ++ codes ".cfg")
        (append_cancel_left backend_path _ _
          (sym (backend_file-plain node_id plain) ∙ e ∙ backend_file-plain other plain')))
