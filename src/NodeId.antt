-- ===== src/NodeId.antt =====
-- The node id of `sha256PublicKey` in Nodejs_Broker/redis_config.mjs: the digest of a public key in base58.
pub mod RoundTrip
use otmc_broker.Prelude.{
  ℕ, zero, suc, ◌+◌, ◌*◌, ◌/◌, ◌%◌, Text, codes, List, [], ◌∷◌, ◌++◌, Option, none, some, get_elem?,
  ◌==◌, if◌then◌else◌,
}
use otmc_broker.Result.{Result, ok, err, library_error}

abbrev pub base58_alphabet : Text
base58_alphabet = codes "123456789ABCDEFGHJKLMNPQRSTUVWXYZabcdefghijkmnopqrstuvwxyz"

-- `base58Alphabet[i]` in a sum of texts.
unfoldable pub base58_char : ℕ → Text
base58_char i = elim (get_elem? base58_alphabet i) [ none ↦ codes "undefined" | some c ↦ c ∷ [] ]

-- The `while` loop; `none` means that the fuel ran out.
unfoldable pub base58_loop : ℕ → ℕ → Text → Option Text
base58_loop fuel zero text = some text
base58_loop zero (suc value) text = none
base58_loop (suc fuel) (suc value) text =
    base58_loop fuel (suc value / 58) (base58_char (suc value % 58) ++ text)

-- `BigInt('0x' + digest.toString('hex'))`.
unfoldable pub big_int : ℕ → List ℕ → ℕ
big_int value [] = value
big_int value (byte ∷ bytes) = big_int (value * 256 + byte) bytes

-- `findIndex((byte) => byte !== 0)`; `none` is -1.
unfoldable pub leading_zeros : List ℕ → Option ℕ
leading_zeros [] = none
leading_zeros (zero ∷ bytes) = elim (leading_zeros bytes) [ none ↦ none | some n ↦ some (suc n) ]
leading_zeros (suc byte ∷ bytes) = some 0

abbrev pub repeat : ℕ → Text → Text
repeat zero text = []
repeat (suc n) text = text ++ repeat n text

-- The fuel is the number; `repeat(-1)` throws.
unfoldable pub node_id : List ℕ → Result (Option Text)
unfolding base58_loop base58_char big_int leading_zeros
node_id digest =
    let value = big_int 0 digest in
    elim (leading_zeros digest) [
      | none ↦ err library_error
      | some zeros ↦ elim (base58_loop value value []) [
        | none ↦ ok none
        | some text ↦ ok (some (repeat zeros (base58_char 0) ++ text))
      ]
    ]
