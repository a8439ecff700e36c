-- ===== src/Session/Keeps/Handlers.antt =====
-- Each handler keeps a property of the process, under the laws for it.
use otmc_broker.Prelude.{
  ℕ, Text, Bool-cases, true, not, ◌++◌, ◌==◌, List, [], ◌∷◌, Option, Option-cases, none, some, ◌≡◌,
  refl, ap, arith, sym, subst, inl, inr,
}
use otmc_broker.Result.{Result, ok, err}
use otmc_broker.Runtime.{Runtime}
use otmc_broker.Certificate.{Config}
use otmc_broker.Collect.{get_client}
use otmc_broker.Acl.{AclConfig, add_acl, get_acl}
use otmc_broker.Json.{Value}
use otmc_broker.Topics.{get_subscriptions}
use otmc_broker.Packet.{
  Reply, AuthProperties, Publish, Subscription, Packet, connect, auth, publish, subscribe, pingreq,
  disconnect, unhandled, success, not_authorized,
}
use otmc_broker.World.{
  World, update, client_id, has_acl, continue, pure, gets, write_to, end_socket,
}
use otmc_broker.Session.Access.{is_readable, is_writable, may_access}
use otmc_broker.Session.Connect.{Random, handle_connect}
use otmc_broker.Session.Auth.{Clock, client_cert_of, accept, handle_auth}
use otmc_broker.Session.Auth.Grant.{
  Admission, auth_json, Ends, rejects, throws, admits, handle_auth-Ends,
}
use otmc_broker.Session.Subscribe.{
  acl_of, acl_of-some, acl_of_throws, NoAcl, subscribe_one, subscribe_all, handle_subscribe,
}
use otmc_broker.Session.Publish.{
  forward_to, forward_message, send_puback, send_pubrec, acknowledge, handle_publish,
  handle_pingreq,
}
use otmc_broker.Session.Keeps.{Keeps, Laws, Occasion, Keeps-bind, pure-Keeps, gets-Keeps, if-Keeps}
use otmc_broker.Session.{Arrival, handle_packet, handle_packets}

module _ (I : World → Type 0) (heard : Occasion) (r : Runtime) (config : Config)
    (laws : Laws I heard r config) where
  handle_connect-Keeps :
      (socket : ℕ) (id : Text) (random : Random) → Keeps I (handle_connect socket id random)
  unfolding handle_connect
  handle_connect-Keeps socket id random = record {
    at = λ w v. laws.framed _ _ _ (laws.connected w socket _ random.challenge v);
  }

  write_to-Keeps : (socket : ℕ) (reply : Reply) → Keeps I (write_to socket reply)
  write_to-Keeps socket reply = record { at = λ w v. laws.framed w _ _ v }

  end_socket-Keeps : (socket : ℕ) → Keeps I (end_socket socket)
  end_socket-Keeps socket = record { at = λ w v. laws.framed w _ _ v }

  acl_of-Keeps : (socket : ℕ) → Keeps I (acl_of socket)
  acl_of-Keeps socket = record {
    at = λ w v. elim (Bool-cases (has_acl w socket)) [
      | inr undefined ↦ rw (acl_of_throws socket w (inl undefined)) v
      | inl defined ↦ elim (Option-cases (get_acl w.acls (client_id w socket))) [
        | inl e ↦ rw (acl_of_throws socket w (inr e)) v
        | inr (acl, e) ↦ rw (acl_of-some socket w acl defined e) v
      ]
    ];
  }

  allowed_kept :
      (socket : ℕ) (sub : Subscription) (w : World) (acl : AclConfig)
      → has_acl w socket ≡ true
      → get_acl w.acls (client_id w socket) ≡ some acl
      → I w
      → I (subscribe_one socket sub w).1
  unfolding subscribe_one
  allowed_kept socket sub w acl h e v =
      rw (acl_of-some socket w acl h e) (elim (Bool-cases (may_access is_readable acl sub.topic)) [
        | inl allowed ↦ rw allowed (laws.subscribed w socket acl sub.topic e allowed v)
        | inr denied ↦ rw denied v
      ])

  barred_kept :
      (socket : ℕ) (sub : Subscription) (w : World)
      → NoAcl w socket
      → I w
      → I (subscribe_one socket sub w).1
  unfolding subscribe_one
  barred_kept socket sub w n v = rw (acl_of_throws socket w n) v

  subscribe_one-Keeps : (socket : ℕ) (sub : Subscription) → Keeps I (subscribe_one socket sub)
  subscribe_one-Keeps socket sub = record {
    at = λ w v. elim (Bool-cases (has_acl w socket)) [
      | inr undefined ↦ barred_kept socket sub w (inl undefined) v
      | inl defined ↦ elim (Option-cases (get_acl w.acls (client_id w socket))) [
        | inl e ↦ barred_kept socket sub w (inr e) v
        | inr (acl, e) ↦ allowed_kept socket sub w acl defined e v
      ]
    ];
  }

  subscribe_all-Keeps :
      (socket : ℕ) (subs : List Subscription) (granted : List ℕ)
      → Keeps I (subscribe_all socket subs granted)
  unfolding subscribe_all
  subscribe_all-Keeps socket [] granted = pure-Keeps I granted
  subscribe_all-Keeps socket (sub ∷ subs) granted =
      Keeps-bind I (subscribe_one socket sub) _ (subscribe_one-Keeps socket sub)
        λ code. subscribe_all-Keeps socket subs (granted ++ code ∷ [])

  handle_subscribe-Keeps :
      (socket message_id : ℕ) (subs : List Subscription)
      → Keeps I (handle_subscribe socket message_id subs)
  unfolding handle_subscribe
  handle_subscribe-Keeps socket message_id subs =
      Keeps-bind I (subscribe_all socket subs []) _ (subscribe_all-Keeps socket subs [])
        λ granted. write_to-Keeps socket _

  forward_to-Keeps :
      (topic payload : Text) (ids : List Text) → Keeps I (forward_to topic payload ids)
  unfolding forward_to
  forward_to-Keeps topic payload [] = pure-Keeps I tt
  forward_to-Keeps topic payload (id ∷ ids) =
      Keeps-bind I (gets λ w. get_client w.collect id) _ (gets-Keeps I _)
        λ client. Keeps-bind I _ _ (write_if client) λ _. forward_to-Keeps topic payload ids
    where
      write_if :
          (client : Option ℕ)
          → Keeps I {A = Unit {0}} (elim client [
            | none ↦ pure tt
            | some target ↦ write_to target (Reply.forward topic payload)
          ])
      write_if none = pure-Keeps I tt
      write_if (some target) = write_to-Keeps target _

  send_puback-Keeps :
      (socket : ℕ) (message_id : Option ℕ) (reason_code : ℕ)
      → Keeps I (send_puback socket message_id reason_code)
  unfolding send_puback
  send_puback-Keeps socket none reason_code = pure-Keeps I tt
  send_puback-Keeps socket (some i) reason_code = write_to-Keeps socket _

  send_pubrec-Keeps :
      (socket : ℕ) (message_id : Option ℕ) (reason_code : ℕ)
      → Keeps I (send_pubrec socket message_id reason_code)
  unfolding send_pubrec
  send_pubrec-Keeps socket none reason_code = pure-Keeps I tt
  send_pubrec-Keeps socket (some i) reason_code = write_to-Keeps socket _

  acknowledge-Keeps :
      (socket : ℕ) (packet : Publish) (reason_code : ℕ)
      → Keeps I (acknowledge socket packet reason_code)
  unfolding acknowledge
  acknowledge-Keeps socket packet reason_code =
      if-Keeps I (packet.qos == 1) (send_puback-Keeps socket packet.message_id reason_code) (
        if-Keeps I (packet.qos == 2) (send_pubrec-Keeps socket packet.message_id reason_code)
          (pure-Keeps I tt))

  handle_publish-Keeps : (socket : ℕ) (packet : Publish) → Keeps I (handle_publish socket packet)
  unfolding handle_publish forward_message
  handle_publish-Keeps socket packet = Keeps-bind I (acl_of socket) _ (acl_of-Keeps socket) λ acl.
      if-Keeps I (not (may_access is_writable acl packet.topic))
        (acknowledge-Keeps socket packet not_authorized)
        (Keeps-bind I (forward_message packet.topic packet.payload) _
          (Keeps-bind I (gets λ w. get_subscriptions w.subscriptions packet.topic) _
            (gets-Keeps I _) λ ids. forward_to-Keeps packet.topic packet.payload ids)
          λ _. acknowledge-Keeps socket packet success)

  same_id :
      (socket : ℕ) (w : World)
      → (update w.sessions socket (record (w.sessions socket) { has_acl = true }) socket).client_id
        ≡ client_id w socket
  same_id socket w = ground arith

  module _ (socket : ℕ) where
    accept_kept :
        (clock : Clock) (properties : AuthProperties) (acl : AclConfig) (w : World)
        → heard w socket clock properties
        → Admission r config w socket clock properties acl
        → I w
        → I (accept socket acl w).1
    unfolding accept
    accept_kept clock properties acl w h a v = laws.framed _ _ _ (
        subst (λ id. I (record w { acls = add_acl w.acls id acl })) (sym (same_id socket w))
          (laws.admitted w socket clock properties acl h a v))

    Ends_kept :
        (clock : Clock) (properties : AuthProperties) (json : Value) (client_cert : Option Value)
        (w : World) (result : Result (Unit {0}) × World)
        → heard w socket clock properties
        → auth_json r config (some properties) ≡ some json
        → client_cert_of (some json) ≡ ok client_cert
        → Ends r config w socket clock (some json) client_cert result
        → I w
        → I result.1
    Ends_kept clock properties json client_cert w result h p c (rejects n e) v =
        rw e (laws.framed w _ _ v)
    Ends_kept clock properties json client_cert w result h p c (throws x valid t e) v = rw e v
    Ends_kept clock properties json client_cert w result h p c (admits acl a e) v = rw e (
        accept_kept clock properties acl w h
          (record { json = json; parsed = p; client_cert = client_cert; has_cert = c; admits = a })
          v)

    auth_kept :
        (clock : Clock) (properties : AuthProperties) (w : World)
        → heard w socket clock properties
        → I w
        → I (handle_auth r config socket clock (some properties) w).1
    auth_kept clock properties w h v =
        elim (handle_auth-Ends r config w socket clock (some properties)) [
          | inl (n, e) ↦ rw e (laws.framed w _ _ v)
          | inr (json, p, inl (x, c, e)) ↦ rw e v
          | inr (json, p, inr (client_cert, c, e)) ↦
              Ends_kept clock properties json client_cert w _ h p c e v
        ]

    -- If the packet is an `auth` packet, then this is an occasion for it.
    abbrev Hears : Packet → Clock → World → Type 0
    Hears packet clock w =
        (properties : AuthProperties)
        → packet ≡ auth (some properties)
        → heard w socket clock properties

    module _ (random : Random) (clock : Clock) (w : World) where
      packet_kept :
          (packet : Packet)
          → Hears packet clock w
          → I w
          → I
              (handle_packet r config socket
                (record { packet = packet; random = random; clock = clock })
                w).1
      unfolding handle_packet handle_pingreq handle_auth
      packet_kept (connect id) h v = (handle_connect-Keeps socket id random).at w v
      packet_kept (auth none) h v = laws.framed w _ _ v
      packet_kept (auth (some properties)) h v = auth_kept clock properties w (h properties refl) v
      packet_kept (publish packet) h v = (handle_publish-Keeps socket packet).at w v
      packet_kept (subscribe message_id subs) h v =
          (handle_subscribe-Keeps socket message_id subs).at w v
      packet_kept pingreq h v = (write_to-Keeps socket _).at w v
      packet_kept disconnect h v = (end_socket-Keeps socket).at w v
      packet_kept unhandled h v = v

    -- Each of the `auth` packets has its occasion when the packets before it are handled.
    abbrev pub HearsAll : List Arrival → World → Type 0
    HearsAll arrivals w =
        (done rest : List Arrival) (arrival : Arrival) (w' : World) (properties : AuthProperties)
        → arrivals ≡ done ++ arrival ∷ rest
        → handle_packets r config socket done w ≡ (ok tt, w')
        → arrival.packet ≡ auth (some properties)
        → heard w' socket arrival.clock properties

    rest_kept :
        (arrival : Arrival) (arrivals : List Arrival) (w : World) (res : Result (Unit {0}) × World)
        → handle_packet r config socket arrival w ≡ res
        → HearsAll (arrival ∷ arrivals) w
        → ((w' : World)
            → HearsAll arrivals w'
            → I w'
            → I (handle_packets r config socket arrivals w').1)
        → I res.1
        → I (continue res.0 (λ t. handle_packets r config socket arrivals) res.1).1
    unfolding handle_packets
    rest_kept arrival arrivals w (err e, w') same h next v = v
    rest_kept arrival arrivals w (ok tt, w') same h next v =
        next w'
          (λ done rest later u properties e s p.
            h (arrival ∷ done) rest later u properties (ap (λ xs. arrival ∷ xs) e) (rw same s) p)
          v

    pub packets_kept :
        (arrivals : List Arrival) (w : World)
        → HearsAll arrivals w
        → I w
        → I (handle_packets r config socket arrivals w).1
    unfolding handle_packets
    packets_kept [] w h v = v
    packets_kept (arrival ∷ arrivals) w h v =
        rest_kept arrival arrivals w (handle_packet r config socket arrival w) refl h
          (packets_kept arrivals)
          (packet_kept arrival.random arrival.clock w arrival.packet
            (λ properties p. h [] arrivals arrival w properties refl refl p) v)
