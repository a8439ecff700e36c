-- ===== src/Examples/Texts.antt =====
-- A text of two certificates, and a node id.
use otmc_broker.Prelude.{
  Text, ℕ, ◌≤◌, codes, List, [], ◌∷◌, ◌++◌, map, none, some, ◌≡◌, ◌⊎◌, arith, All, length,
}
use otmc_broker.Result.{ok, err, library_error}
use otmc_broker.NodeId.{big_int, leading_zeros, node_id}
use otmc_broker.NodeId.RoundTrip.{value_of, value_of-node_id}
use otmc_broker.Pem.{begin_marker, split_cert_chain}
use otmc_broker.Pem.RoundTrip.{Block, HasNoDash, pem, chain_text, split_cert_chain-chain_text}

abbrev blocks : List Block
blocks = (codes "MA", 10 ∷ []) ∷ (codes "MB", []) ∷ []

no_dash : All HasNoDash blocks
no_dash = (
  ((λ e. omega (arith, e), (λ e. omega (arith, e), tt)), (λ e. omega (arith, e), tt)),
  (((λ e. omega (arith, e), (λ e. omega (arith, e), tt)), tt), tt),
)

split_cert_chain-chain_text_example :
    split_cert_chain (some ([] ++ chain_text blocks)) ≡ map (λ block. pem block.0) blocks
split_cert_chain-chain_text_example = split_cert_chain-chain_text [] blocks tt no_dash

fits : length (begin_marker ++ codes "MA") ≤ 29
fits = omega arith

fits_more : length (begin_marker ++ codes "MA") ≤ 40
fits_more = omega arith

abbrev digest : List ℕ
digest = 0 ∷ 3 ∷ 7 ∷ []

value_of-node_id_example :
    ((leading_zeros digest ≡ none) × (node_id digest ≡ err library_error))
    ⊎ ((text : Text) × (node_id digest ≡ ok (some text)) × (value_of 0 text ≡ big_int 0 digest))
value_of-node_id_example = value_of-node_id digest
