-- ===== src/Proxy/Admission.antt =====
-- Which connections get a bridge in ProxyWSS/index.mjs.
use mathlib.Core.Option.{some-injective}
use otmc_broker.Prelude.{
  ℕ, Text, codes, text_eq_iff, text_eq_refl, is_empty, Bool-cases, true, Option, Option-cases, none,
  some, inl, inr, ◌≡◌, ◌≢◌, ◌∙◌, refl, ap, sym,
}
use otmc_broker.Result.{Result, ok, ◌>>=◌}
use otmc_broker.PlainObject.{is_present}
use otmc_broker.Proxy.Backends.{Suffixes, backend, is_valid_token}
use otmc_broker.Proxy.Data.{State, close, called}
use otmc_broker.Proxy.Pool.{get_backend_client}
use otmc_broker.Proxy.Handlers.{Query, Library, given, add_bridge, on_connection}

abbrev pub secret : Text
secret = codes "your-secret-token"

module _ (suffixes : Suffixes) (query : Query) where
  -- `BACKENDS[backendId]` is truthy.
  pub record IsKnown (id : Text) : Type 0 where
    pub named : given query.backend ≡ some id
    pub present : is_present (backend suffixes id) ≡ true

  pub record Accepts (id topic : Text) : Type 0 where
    pub token : query.token ≡ some secret
    pub backend : IsKnown id
    pub topic_given : given query.topic ≡ some topic

given_of_some : (o : Option Text) (t : Text) → given o ≡ some t → o ≡ some t
given_of_some none t e = absurd (cc e)
given_of_some (some u) t e = elim (Bool-cases (is_empty u)) [
  | inl empty ↦ absurd (cc (rw empty at e))
  | inr full ↦ rw full at e
]

is_secret :
    (query : Query) (token : Text)
    → given query.token ≡ some token
    → is_valid_token token ≡ true
    → query.token ≡ some secret
unfolding is_valid_token
is_secret query token e valid =
    given_of_some query.token token e ∙ ap some ((text_eq_iff token secret).0 valid)

module _ (library : Library) (socket : ℕ) (query : Query) (s : State) where
  open library use {suffixes, mqtt_connect}

  -- What the listener of `connection` returns.
  pub data Answer (result : Result State) : Type 0 where
    unauthorized :
        query.token ≢ some secret
        → result ≡ ok (called (close socket 4001 (codes "Unauthorized")) s)
        → Answer result
    unknown_backend :
        query.token ≡ some secret
        → ((id : Text) → ¬ IsKnown suffixes query id)
        → result ≡ ok (called (close socket 4003 (codes "Unknown backend")) s)
        → Answer result
    missing_topic :
        (id : Text)
        → query.token ≡ some secret
        → IsKnown suffixes query id
        → given query.topic ≡ none
        → result ≡ ok (called (close socket 4002 (codes "Missing topic")) s)
        → Answer result
    accepted :
        (id topic : Text)
        → Accepts suffixes query id topic
        → result ≡ (
            get_backend_client suffixes mqtt_connect id s >>= λ got.
            ok (add_bridge socket id topic got))
        → Answer result

  -- Without the token a connection is closed with 4001; with it, but without a backend that is known,
  -- with 4003; with both, but without a topic, with 4002; and no bridge is added. With all three the
  -- socket gets a bridge to the backend's MQTT client, if there is one.
  pub on_connection_lem : Answer (on_connection library socket query s)
  unfolding on_connection is_valid_token
  on_connection_lem = elim (Option-cases (given query.token)) [
    | inl no_token ↦
        unauthorized (λ t. cc (no_token, ap given t)) (rw (no_token, on_connection) refl)
    | inr (token, e) ↦ elim (Bool-cases (is_valid_token token)) [
      | inr refused ↦
          unauthorized
            (λ t.
              cc (refused, text_eq_refl secret, some-injective token secret (sym e ∙ ap given t)))
            (rw (e, refused, on_connection) refl)
      | inl valid ↦ elim (Option-cases (given query.backend)) [
        | inl no_backend ↦
            unknown_backend (is_secret query token e valid) (λ id k. cc (k.named, no_backend))
              (rw (e, valid, no_backend, on_connection) refl)
        | inr (id, e') ↦ elim (Bool-cases (is_present (backend suffixes id))) [
          | inr unknown ↦
              unknown_backend (is_secret query token e valid)
                (λ j k. cc (unknown, k.present, some-injective id j (sym e' ∙ k.named)))
                (rw (e, valid, e', unknown, on_connection) refl)
          | inl known ↦ elim (Option-cases (given query.topic)) [
            | inl no_topic ↦
                missing_topic id (is_secret query token e valid)
                  (record { named = e'; present = known }) no_topic
                  (rw (e, valid, e', known, no_topic, on_connection) refl)
            | inr (topic, e'') ↦
                accepted id topic
                  (record {
                    token = is_secret query token e valid;
                    backend = record { named = e'; present = known };
                    topic_given = e'';
                  })
                  (rw (e, valid, e', known, e'', on_connection) refl)
          ]
        ]
      ]
    ]
  ]

  pub accepted_lem :
      (id topic : Text)
      → Accepts suffixes query id topic
      → on_connection library socket query s ≡ (
          get_backend_client suffixes mqtt_connect id s >>= λ got.
          ok (add_bridge socket id topic got))
  unfolding on_connection is_valid_token
  accepted_lem id topic accepts =
      rw
        (
          on_connection,
          accepts.token,
          is_valid_token,
          text_eq_refl secret,
          accepts.backend.named,
          accepts.backend.present,
          accepts.topic_given,
        )
        refl
