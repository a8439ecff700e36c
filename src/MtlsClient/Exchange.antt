-- ===== src/MtlsClient/Exchange.antt =====
-- The exchange of the client of test/client_mtls/index.js with Nodejs_Broker/client_session.mjs.
use otmc_broker.Prelude.{
  ℕ, Text, codes, text_eq_refl, ◌==◌, true, false, is_empty, List, [], ◌∷◌, ◌++◌, Option, none,
  some, ◌≡◌, ◌≢◌, refl, subst, sym, arith, All,
}
use otmc_broker.Map
use otmc_broker.TextSet
use otmc_broker.TextSet.{TextSet}
use otmc_broker.Result.{ok}
use otmc_broker.Json.{Value, string, property, iterate, array, cons, nil, truthy, field_value}
use otmc_broker.Runtime.{Runtime}
use otmc_broker.Collect.{add_client, add_challenge, has_challenge}
use otmc_broker.Certificate
use otmc_broker.Certificate.{Config, is_valid}
use otmc_broker.Certificate.Signature.{is_recent, read_challenge}
use otmc_broker.Certificate.Signature.Proof.{Proves}
use otmc_broker.Certificate.Chain.Valid.{is_valid-IsTrusted, is_valid_keeps}
use otmc_broker.Acl.{get_acl_config}
use otmc_broker.Packet.{Reply, AuthProperties, buffer, continue_auth}
use otmc_broker.World.{World, write, client_id}
use otmc_broker.Session.Connect.{Random, broker_id, handle_connect}
use otmc_broker.Session.Auth.{Clock, client_cert_of, accept, handle_auth}
use otmc_broker.Session.Auth.Grant.{checked, hashed}
use otmc_broker.Session.Auth.Rights.{hashed_some}
use otmc_broker.Session.Auth.Honest.{IsHonest, honest_is_admitted}
use otmc_broker.MtlsClient
use otmc_broker.MtlsClient.{Holder, Answer, challenge_msg, signed_msg, challenged_msg, message_for}

-- The properties as the broker's parser gives them: the data are a buffer.
abbrev pub received : Answer → AuthProperties
received answer = record {
  authentication_method = some answer.authentication_method;
  authentication_data = some (buffer answer.authentication_data);
}

-- What `handleConnect` does for the exchange.
connects_lem :
    (w : World) (socket : ℕ) (packet_client_id : Text) (random : Random)
    → (w1 : World) × (handle_connect socket packet_client_id random w ≡ (ok tt, w1))
      × (w1.output
          ≡ w.output
            ++ write socket (Reply.auth continue_auth (codes "certchain") random.challenge) ∷ [])
      × (client_id w1 socket ≡ broker_id packet_client_id random)
      × (Map.get w1.collect.challenges (broker_id packet_client_id random) ≡ some random.challenge)
unfolding handle_connect add_client add_challenge
connects_lem w socket packet_client_id random =
    let id = broker_id packet_client_id random in
    (_, refl, refl, ground (arith), rw (Map.get-set, text_eq_refl id) refl)

module _ (r : Runtime) (config : Config) (holder : Holder) where
  open r use {Cert, parse_json, stringify, to_date, to_lower_case, decode_base64, verify}

  -- The client with this id can be let in: its certificates make a valid chain, which has the
  -- certificate of its key, and what the key signs is verified with that certificate.
  pub record IsSound (clock : Clock) (id : Text) : Type 0 where
    pub has_cert : is_empty holder.cert ≡ false
    pub valid : (checked r config clock (some (string holder.cert)) id).1 ≡ true
    pub own : Cert
    pub in_chain :
        Map.get
          (hashed r config clock (some (string holder.cert)) id).0.full_chain_map
          holder.key_address
        ≡ some own
    pub signs :
        (text : Text)
        → (bytes : Text) × (decode_base64 (some (string (holder.sign text))) ≡ ok bytes)
          × (verify (to_lower_case (codes "SHA256")) text own bytes ≡ ok true)

  hashed_id :
      (clock : Clock) (cert : Option Value) (id : Text)
      → (hashed r config clock cert id).0.client_id ≡ id
  unfolding Certificate.get_public_key_hash Certificate.init
  hashed_id clock cert id =
      ground (arith, is_valid_keeps r config clock.chain_now (Certificate.init r cert id))

  module _ (challenge time_stamp : Text) where
    abbrev claim : Value
    claim = challenge_msg challenge time_stamp

    abbrev signed : Value
    signed = signed_msg holder claim (holder.sign (stringify claim))

    abbrev answer_to : Answer
    answer_to = record {
      reason_code = continue_auth;
      authentication_method = codes "certchain";
      authentication_data = stringify (message_for r holder challenge time_stamp);
    }

    sent_cert :
        is_empty holder.cert ≡ false
        → client_cert_of (some (message_for r holder challenge time_stamp))
          ≡ ok (some (string holder.cert))
    unfolding message_for challenged_msg client_cert_of property field_value truthy
        otmc_broker.Prelude.text_eq
    sent_cert h = rw h refl

    sent_challenges :
        property (some (message_for r holder challenge time_stamp)) (codes "challenges")
        ≡ ok (some (array (cons signed nil)))
    unfolding message_for challenged_msg property field_value otmc_broker.Prelude.text_eq
    sent_challenges = refl

    reads_fields :
        read_challenge signed
        ≡ ok (record {
          data_json = some claim;
          signature = some (string (holder.sign (stringify claim)));
          algorithm = some (string (codes "SHA256"));
          key_address = some (string holder.key_address);
        })
    unfolding signed_msg read_challenge property field_value otmc_broker.Prelude.text_eq
    reads_fields = refl

    pending :
        (w : World) (id : Text)
        → Map.get w.collect.challenges id ≡ some challenge
        → challenge ≢ []
        → has_challenge w.collect id (some challenge) ≡ true
    unfolding has_challenge
    pending w id waits not_empty = ground (arith, text_eq_refl challenge)

    -- The one challenge of the answer proves the client's key, if the broker waits for it.
    signed-Proves :
        (w : World) (clock : Clock) (id : Text) (sound : IsSound clock id) (now : ℕ)
        → Map.get w.collect.challenges id ≡ some challenge
        → challenge ≢ []
        → is_recent now (to_date (some (string time_stamp))) ≡ true
        → Proves r w.collect
            (hashed r config clock (some (string holder.cert)) id).0
            now
            holder.key_address
            signed
    unfolding challenge_msg property field_value otmc_broker.Prelude.text_eq truthy
        otmc_broker.Json.to_text
    signed-Proves w clock id sound now waits not_empty recent =
        let (bytes, decodes, verifies) = sound.signs (stringify claim) in
        record {
          fields = record {
            data_json = some claim;
            signature = some (string (holder.sign (stringify claim)));
            algorithm = some (string (codes "SHA256"));
            key_address = some (string holder.key_address);
          };
          reads = reads_fields;
          address = refl;
          cert = sound.own;
          in_chain = sound.in_chain;
          checked = record {
            signed_challenge = some (string challenge);
            time_stamp = some (string time_stamp);
            signature_bytes = bytes;
            data_challenge = refl;
            data_time = refl;
            pending =
                rw (hashed_id clock (some (string holder.cert)) id) (pending w id waits not_empty);
            recent = recent;
            decodes = decodes;
            verifies = verifies;
          };
        }

    answer_to-IsHonest :
        (w : World) (socket : ℕ) (clock : Clock) (sound : IsSound clock (client_id w socket))
        → Map.get w.collect.challenges (client_id w socket) ≡ some challenge
        → challenge ≢ []
        → is_recent (clock.challenge_now 0) (to_date (some (string time_stamp))) ≡ true
        → parse_json (stringify (message_for r holder challenge time_stamp))
          ≡ some (message_for r holder challenge time_stamp)
        → (h : IsHonest r config w socket clock (received answer_to) (holder.key_address ∷ []))
          × (h.client_cert ≡ some (string holder.cert))
    unfolding iterate otmc_broker.Prelude.text_eq
    answer_to-IsHonest w socket clock sound waits not_empty recent parses =
        let id = client_id w socket in
        let cert = some (string holder.cert) in
        let trusted =
          is_valid-IsTrusted r config clock.chain_now (Certificate.init r cert id) sound.valid in
        (
          record {
            method = refl;
            raw = buffer (stringify (message_for r holder challenge time_stamp));
            sent = refl;
            not_missing = refl;
            json = message_for r holder challenge time_stamp;
            parsed = parses;
            client_cert = cert;
            has_chain = sent_cert sound.has_cert;
            valid = sound.valid;
            root = trusted.root;
            chain = trusted.rest;
            not_empty =
                (hashed_some r config (checked r config clock cert id).0 trusted.root trusted.rest
                  trusted.shape).1;
            challenges = some (array (cons signed nil));
            has_challenges = sent_challenges;
            list = signed ∷ [];
            listed = refl;
            proves =
                (signed-Proves w clock id sound (clock.challenge_now 0) waits not_empty recent, tt);
          },
          refl,
        )

  -- The client connects, and answers the challenge that `handleConnect` sends it. If its certificates
  -- make a valid chain with the certificate of its key, its signatures are verified, the challenge is
  -- not empty, its clock is near to the broker's, and the broker parses the text of the answer to what
  -- the client made the text of, then `handleAuth` accepts the answer, and grants the ACL of the chain's
  -- hashes and of a set of verified hashes that has the client's key.
  pub exchange_admits :
      (w : World) (socket : ℕ) (packet_client_id : Text) (random : Random) (clock : Clock)
      (time_stamp : Text) (sound : IsSound clock (broker_id packet_client_id random))
      → random.challenge ≢ []
      → is_recent (clock.challenge_now 0) (to_date (some (string time_stamp))) ≡ true
      → parse_json (stringify (message_for r holder random.challenge time_stamp))
        ≡ some (message_for r holder random.challenge time_stamp)
      → (w1 : World) × (answer : Answer) × (verified : TextSet) × (handle_connect socket
            packet_client_id random w
          ≡ (ok tt, w1))
        × (w1.output
            ≡ w.output
              ++ write socket (Reply.auth continue_auth (codes "certchain") random.challenge) ∷ [])
        × (MtlsClient.handle_auth r holder time_stamp (some (buffer random.challenge))
            ≡ some answer)
        × (handle_auth r config socket clock (some (received answer)) w1
            ≡ accept socket
                (get_acl_config
                  (hashed r config clock
                    (some (string holder.cert))
                    (broker_id packet_client_id random)).1
                  (some verified))
                w1)
        × (TextSet.has verified holder.key_address ≡ true)
  exchange_admits w socket packet_client_id random clock time_stamp sound not_empty recent parses =
      let (w1, connects, output, named, waits) = connects_lem w socket packet_client_id random in
      let challenge = random.challenge in
      let here = subst (IsSound clock) (sym named) sound in
      let (honest, same_cert) =
        answer_to-IsHonest challenge time_stamp w1 socket clock here (rw named waits) not_empty
          recent parses in
      let (verified, accepts, all) =
        honest_is_admitted r config w1 socket clock (received (answer_to challenge time_stamp))
          (holder.key_address ∷ []) honest in
      (
        w1,
        answer_to challenge time_stamp,
        verified,
        connects,
        output,
        (unfold MtlsClient.handle_auth in refl),
        (rw (sym named, sym same_cert) accepts),
        all.0,
      )
