-- ===== src/Gateway/Listed.antt =====
-- What HAProxy_Gate/dynamic-backend/backend_in_haproxy.mjs reads in the answer of HAProxy.
use otmc_broker.Prelude.{
  not, true, Text, codes, is_empty, false, List, [], ◌∷◌, ◌++◌, map, some, ◌≡◌, ◌≢◌, ◌∙◌, refl, ap,
  arith, split, split_lem, split-append, join, Avoids, All, All-append, All_map,
}
use otmc_broker.Capture.{capture, units_of-All}
use otmc_broker.Pem.{strip_prefix}
use otmc_broker.Gateway.Haproxy.{is_space, match_line, matches, push_match}

abbrev pub line_of : Text → Text
line_of node_id = codes "mqtt_backend_" ++ node_id

-- A node id that is not empty and has no white space.
pub record IsWord (node_id : Text) : Type 0 where
  pub not_empty : is_empty node_id ≡ false
  pub no_space : All (λ c. is_space c ≡ false) node_id

match_line_lem : (node_id : Text) → IsWord node_id → match_line (line_of node_id) ≡ some node_id
unfolding match_line capture strip_prefix
match_line_lem node_id w =
    rw
      (
        units_of-All (λ c. not (is_space c)) node_id
            (All_map _ (λ c. not (is_space c) ≡ true) node_id (λ c h. ap not h) w.no_space),
        w.not_empty,
      )
      refl

line_of-Avoids : (node_id : Text) → IsWord node_id → Avoids b'\n' (line_of node_id)
unfolding is_space
line_of-Avoids node_id w =
    All-append _ (codes "mqtt_backend_") node_id (ground arith)
      (All_map _ (λ c. c ≢ b'\n') node_id (λ c h same. cc (h, ap is_space same)) w.no_space)

split_line :
    (node_id rest : Text)
    → IsWord node_id
    → split b'\n' (line_of node_id ++ b'\n' ∷ rest) ≡ line_of node_id ∷ split b'\n' rest
split_line node_id rest w =
    split-append b'\n' (line_of node_id) rest
    ∙ ap (λ lines. lines ++ split b'\n' rest)
        (split_lem b'\n' (line_of node_id) (line_of-Avoids node_id w))

matches_line :
    (node_id : Text) (lines : List Text)
    → IsWord node_id
    → matches (line_of node_id ∷ lines) ≡ node_id ∷ matches lines
unfolding matches
matches_line node_id lines w =
    ap (λ found. push_match found (matches lines)) (match_line_lem node_id w)

nothing_listed : matches (split b'\n' []) ≡ []
unfolding matches split match_line capture
nothing_listed = refl

nothing_left : matches [] ≡ []
unfolding matches
nothing_left = refl

-- The backends of the nodes, one on a line, are read as the nodes.
pub matches-lines :
    (node_ids : List Text)
    → All IsWord node_ids
    → matches (split b'\n' (join b'\n' (map line_of node_ids))) ≡ node_ids
unfolding join
matches-lines [] words = nothing_listed
matches-lines (node_id ∷ []) words =
    ap matches (split_lem b'\n' (line_of node_id) (line_of-Avoids node_id words.0))
    ∙ matches_line node_id [] words.0
    ∙ ap (λ ids. node_id ∷ ids) nothing_left
matches-lines (node_id ∷ next ∷ node_ids) words =
    ap matches (split_line node_id (join b'\n' (map line_of (next ∷ node_ids))) words.0)
    ∙ matches_line node_id _ words.0
    ∙ ap (λ ids. node_id ∷ ids) (matches-lines (next ∷ node_ids) words.1)
