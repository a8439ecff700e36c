-- ===== src/Pem.antt =====
-- `splitCertChain` of Nodejs_Broker/client_certificate_.mjs: all matches of the regular expression
-- BEGIN-marker, as little as possible, END-marker.
pub mod Fuel
pub mod RoundTrip
use otmc_broker.Prelude.{
  ℕ, zero, suc, Text, codes, List, [], ◌∷◌, ◌++◌, Option, none, some, length, ◌==◌, if◌then◌else◌,
}

abbrev pub begin_marker : Text
begin_marker = codes "-----BEGIN CERTIFICATE-----"

abbrev pub end_marker : Text
end_marker = codes "-----END CERTIFICATE-----"

-- What follows the prefix, if the text begins with it.
unfoldable pub strip_prefix : Text → Text → Option Text
strip_prefix [] s = some s
strip_prefix (p ∷ ps) [] = none
strip_prefix (p ∷ ps) (c ∷ s) = let rest = strip_prefix ps s in if p == c then rest else none

abbrev pub one_more : ℕ → Option (Text × Text) → Option (Text × Text)
one_more c none = none
one_more c (some (body, rest)) = some (c ∷ body, rest)

-- The text up to and with the first END marker, and what follows it.
unfoldable pub find_end : Text → Option (Text × Text)
find_end [] = none
find_end (c ∷ s) =
    let later = find_end s in
    elim (strip_prefix end_marker (c ∷ s)) [
      | some rest ↦ some (end_marker, rest)
      | none ↦ one_more c later
    ]

-- The search goes on behind a match, and one unit further where there is none. The fuel is the length
-- of the text.
unfoldable pub find_certs : ℕ → Text → List Text
find_certs zero s = []
find_certs (suc fuel) [] = []
find_certs (suc fuel) (c ∷ s) =
    let further = find_certs fuel s in
    elim (strip_prefix begin_marker (c ∷ s)) [
      | none ↦ further
      | some after ↦ elim (find_end after) [
        | none ↦ further
        | some (body, rest) ↦ (begin_marker ++ body) ∷ find_certs fuel rest
      ]
    ]

-- `certChain?.match(pemRegex) ?? []`.
unfoldable pub split_cert_chain : Option Text → List Text
unfolding strip_prefix find_end find_certs
split_cert_chain none = []
split_cert_chain (some chain) = find_certs (length chain) chain
