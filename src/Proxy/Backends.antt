-- ===== src/Proxy/Backends.antt =====
-- The backends of ProxyWSS/index.mjs, and the check of a token.
use otmc_broker.Prelude.{ℕ, Text, codes, text_eq, Bool, true, [], ◌∷◌, ◌++◌, Option, none, some}
use otmc_broker.Map.{Map}
use otmc_broker.PlainObject.{Found, member}

pub record Options : Type 0 where
  pub client_id : Text
  pub clean : Bool
  pub reconnect_period : ℕ
  pub reject_unauthorized : Option Bool

pub record Backend : Type 0 where
  pub url : Text
  pub options : Options

-- The random parts of the three client ids, which are drawn when the process starts.
pub record Suffixes : Type 0 where
  pub a : Text
  pub b : Text
  pub c : Text

unfoldable pub backends : Suffixes → Map Backend
backends suffixes =
    (
      codes "backend-a",
      record {
        url = codes "mqtt://127.0.0.1:1883";
        options = record {
          client_id = codes "bridge-a-" ++ suffixes.a;
          clean = true;
          reconnect_period = 5000;
          reject_unauthorized = none;
        };
      },
    )
    ∷ (
      codes "backend-b",
      record {
        url = codes "mqtt://192.168.1.100:1883";
        options = record {
          client_id = codes "bridge-b-" ++ suffixes.b;
          clean = true;
          reconnect_period = 5000;
          reject_unauthorized = none;
        };
      },
    )
    ∷ (
      codes "backend-c",
      record {
        url = codes "mqtts://remote.example.com:8883";
        options = record {
          client_id = codes "bridge-c-" ++ suffixes.c;
          clean = true;
          reconnect_period = 5000;
          reject_unauthorized = some true;
        };
      },
    )
    ∷ []

-- `BACKENDS[id]`.
unfoldable pub backend : Suffixes → Text → Found Backend
unfolding backends member
backend suffixes id = member (backends suffixes) id

unfoldable pub is_valid_token : Text → Bool
is_valid_token token = text_eq token (codes "your-secret-token")
