-- ===== src/FieldBus/Wire.antt =====
-- fieldbus/fieldbus.go on gridappsd/client.go: what a bus that has connected puts on which connection.
use gridappsd_go.Common.Maps.{lookup}
use gridappsd_go.ReqResp.{
  ReplyCall, rand_read, subscribe, send, receive, unsubscribe, Answers, Request, bare_reply,
}
use gridappsd_go.ReqResp.{get_response}
use gridappsd_go.ReqResp.Reply.{get_response_calls}
use gridappsd_go.Common.{
  ℕ, Bytes, Bytes-discrete, List, ◌++◌, ◌⊎◌, ◌∙◌, codes, [], ◌∷◌, Option, none, some, ◌≡◌, ◌≢◌,
  refl, inl, inr,
}
use gridappsd_go.GoError.{GoError, ok, Result-cases}
use gridappsd_go.Message.{header_goss_has_subject, header_goss_subject, header_reply_to}
use gridappsd_go.Topics.{normalize_destination}
use gridappsd_go.Auth.{Trace, Env, net_dial, dial_conn}
use gridappsd_go.Auth.Exchange.{durable_config}
use gridappsd_go.Client.{
  Config, NetConn, raw_conn, Network, address_of, credentials, exchange_env, connect,
}
use gridappsd_go.Client.Dial.{Selected}
use gridappsd_go.Client.Session.{connect_ok}
use gridappsd_go.FieldBus.{
  Bus, new_bus, open_session, connect_bus, subject_headers, get_response_bus,
}

-- What the durable connection `conn` of a session rests on.
abbrev pub Durable : Env → (Trace → Network) → Config → ℕ → Type 0
Durable env networks cfg conn =
    (token : Bytes) × (t : Trace) × (c : NetConn) × ((connect env networks cfg).0 ≡ ok conn)
    × (token ≢ [])
    × Selected (networks t) (address_of cfg) cfg.tls_config cfg.allow_plaintext c
    × (env.answer_dial (net_dial ∷ t) ≡ ok conn)
    × ((connect env networks cfg).1
        ≡ dial_conn (raw_conn c)
            (durable_config (exchange_env env networks cfg) (credentials cfg) token) none
          ∷ net_dial
          ∷ t)

module _ (H : Type 0) (env : Env) (networks : Trace → Network) (cfg : Config) where
  abbrev pub connected_bus : Bus H × Option GoError
  connected_bus = connect_bus (λ c. (connect env networks c).0) (new_bus cfg)

  connected_session :
      (connected_bus.1 ≡ none)
      → (conn : ℕ) × ((connect env networks cfg).0 ≡ ok conn)
        × (connected_bus.0.conn ≡ some conn)
        × (connected_bus.0.subject ≡ cfg.user)
  unfolding connect_bus new_bus open_session
  connected_session h = elim (Result-cases (connect env networks cfg).0) [
    | inl (x, e) ↦ let failed = rw (e, open_session) at h in cc
    | inr (conn, e) ↦ (conn, e, rw (e, open_session) refl, rw (e, open_session) refl)
  ]

  -- The headers that the bus stamps, by name.
  lookup-subject_headers :
      (user : Bytes)
      → (lookup Bytes-discrete header_goss_has_subject (subject_headers user) ≡ some (codes "true"))
        × (lookup Bytes-discrete header_goss_subject (subject_headers user) ≡ some user)
  unfolding subject_headers lookup Bytes-discrete
  lookup-subject_headers user = (refl, refl)

  -- GetResponse on a new bus whose Connect succeeded runs on the durable connection of the exchange.
  -- Where the name of a reply queue and the subscription to it can be had on any connection, it
  -- subscribes to the queue of the name that this connection gives, sends one message to the
  -- normalized destination with the name as reply-to and the user of the config as subject, and
  -- unsubscribes the subscription of this connection at the end, whatever the send and the wait give;
  -- its result is that of GetResponse on this connection.
  pub connected_response :
      (answers : ℕ → Answers) (dest kind body : Bytes)
      → connected_bus.1 ≡ none
      → ((conn : ℕ) → (nonce : Bytes) × ((answers conn).random ≡ ok nonce))
      → ((conn : ℕ) → (sub : ℕ) × ((answers conn).subscribed ≡ ok sub))
      → (conn : ℕ) × Durable env networks cfg conn
        × (nonce : Bytes) × (sub : ℕ) × (headers : List (Bytes × Bytes)) × (waits : List ReplyCall)
        × ((answers conn).random ≡ ok nonce)
        × ((answers conn).subscribed ≡ ok sub)
        × ((get_response_bus answers dest kind body connected_bus.0).1
            ≡ rand_read
                ∷ subscribe (codes "/queue/" ++ bare_reply nonce)
                ∷ send (normalize_destination dest) kind body headers
                ∷ waits
              ++ unsubscribe sub ∷ [])
        × ((waits ≡ []) ⊎ (waits ≡ receive sub ∷ []))
        × (lookup Bytes-discrete header_reply_to headers ≡ some (bare_reply nonce))
        × (lookup Bytes-discrete header_goss_has_subject headers ≡ some (codes "true"))
        × (lookup Bytes-discrete header_goss_subject headers ≡ some cfg.user)
        × ((get_response_bus answers dest kind body connected_bus.0).0
            ≡ (get_response (answers conn) (record {
              dest = dest;
              content_type = kind;
              body = body;
              base_headers = subject_headers cfg.user;
            })).0)
  connected_response answers dest kind body h random subscribed =
      let (conn, e, held, user) = connected_session h in
      let (token, t, c, filled, dialled, selected, returned, trace) =
        connect_ok env networks cfg conn e in
      let (nonce, drawn) = random conn in
      let (sub, given) = subscribed conn in
      let q : Request = record {
        dest = dest;
        content_type = kind;
        body = body;
        base_headers = subject_headers cfg.user;
      } in
      let (headers, waits, calls, waited, reply, kept) =
        get_response_calls (answers conn) q nonce sub drawn given in
      (
        conn,
        (token, t, c, e, filled, selected, returned, trace),
        nonce,
        sub,
        headers,
        waits,
        drawn,
        given,
        (unfold get_response_bus in rw (held, get_response_bus, user) calls),
        waited,
        reply,
        kept header_goss_has_subject (λ x. cc) ∙ (lookup-subject_headers cfg.user).0,
        kept header_goss_subject (λ x. cc) ∙ (lookup-subject_headers cfg.user).1,
        (unfold get_response_bus in rw (held, get_response_bus, user) refl),
      )
