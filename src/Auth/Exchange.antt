-- ===== src/Auth/Exchange.antt =====
-- internal/auth/auth.go: fetchToken and Exchange.
use gridappsd_go.Common.{
  ℕ, Bytes, true, false, [], ◌∷◌, ◌++◌, codes, Option, some, none, if◌then◌else◌,
}
use gridappsd_go.GoError.{GoError, errorf, errorf_w, errorf_ww, Result, ok, err}
use gridappsd_go.Message.{header_reply_to}
use gridappsd_go.Transport.{ConnConfig}
use gridappsd_go.Auth.{
  net_dial, dial_conn, close_rwc, rand_read, subscribe, send, receive, log_warning, Trace, Awaited,
  arrived, channel_closed, context_done, Env, Credentials, token_topic, reply_dest_prefix,
  credential_disconnect_bound,
}
use gridappsd_go.Auth.Encoding.{base64_encode, hex_encode, trim_space}
use gridappsd_go.Auth.Steps.{end_credential_conn}

unfoldable pub reply_dest : Bytes → Bytes → Bytes
reply_dest user nonce = reply_dest_prefix ++ user ++ codes "-" ++ hex_encode nonce

-- The last select of fetchToken.
unfoldable pub read_token : Awaited → Result Bytes
read_token channel_closed = err (errorf "token subscription closed before response arrived" [])
read_token (context_done e) = err (errorf_w "token exchange cancelled: %w" [] e)
read_token (arrived m) = elim m.error [
  | some e ↦ err (errorf_w "token subscription error: %w" [] e)
  | none ↦ elim (trim_space m.body) [
    | [] ↦ err (errorf "broker returned empty token" [])
    | c ∷ s ↦ ok (c ∷ s)
  ]
]

-- The body of fetchToken after the defer: the variable `sub` at its end, its result and the trace.
abbrev pub Leg : Type 0
Leg = (Option ℕ × Result Bytes) × Trace

module _ (env : Env) (cred : Credentials) where
  unfoldable pub send_request : ℕ → ℕ → Bytes → Trace → Leg
  send_request conn sub reply t =
      let payload = base64_encode (cred.user ++ codes ":" ++ cred.pass) in
      let t' =
        send conn token_topic (codes "text/plain") payload ((header_reply_to, reply) ∷ []) ∷ t in
      elim (env.answer_send t) [
        | some e ↦ ((some sub, err (errorf_w "token send: %w" [] e)), t')
        | none ↦ ((some sub, read_token (env.answer_receive t')), receive sub ∷ t')
      ]

  unfoldable pub subscribe_reply : ℕ → Bytes → Trace → Leg
  subscribe_reply conn reply t =
      let queue_dest = codes "/queue/" ++ reply in
      let t' = subscribe conn queue_dest ∷ t in
      elim (env.answer_subscribe t) [
        | err e ↦ ((none, err (errorf_w "token subscribe %q: %w" (queue_dest ∷ []) e)), t')
        | ok sub ↦ send_request conn sub reply t'
      ]

  unfoldable pub request_token : ℕ → Trace → Leg
  request_token conn t = elim (env.answer_random t) [
    | err e ↦ ((none, err (errorf_w "generating reply-queue nonce: %w" [] e)), rand_read ∷ t)
    | ok nonce ↦ subscribe_reply conn (reply_dest cred.user nonce) (rand_read ∷ t)
  ]

  -- A context error, with the step error that it hides if there is one.
  unfoldable pub teardown_error : Option GoError → GoError → GoError
  teardown_error none ctx = errorf_w "credential connection teardown: %w" [] ctx
  teardown_error (some step) ctx =
      errorf_w "credential connection teardown: %w" [] (errorf_ww "%w: %w" [] ctx step)

  -- The deferred function, on the two errors of endCredentialConn.
  unfoldable pub settle :
      ℕ → Option GoError → Option GoError → Result Bytes → Trace → Result Bytes × Trace
  settle rwc step (some ctx) (ok token) t = (err (teardown_error step ctx), t)
  settle rwc none ctx result t = (result, t)
  settle rwc (some step) (some ctx) (err e) t = (err e, log_warning false step ∷ t)
  settle rwc (some step) none (err e) t = (err e, log_warning false step ∷ close_rwc rwc ∷ t)
  settle rwc (some step) none (ok token) t = (ok token, log_warning true step ∷ close_rwc rwc ∷ t)

  unfoldable pub credential_leg : ℕ → ℕ → Trace → Result Bytes × Trace
  credential_leg rwc conn t =
      let ((sub, result), t1) = request_token conn t in
      let ((step, ctx), t2) = end_credential_conn env rwc conn sub t1 in
      settle rwc step ctx result t2

  unfoldable pub credential_config : ConnConfig
  credential_config = record cred.config { login = cred.user; passcode = cred.pass }

  unfoldable pub credential_dial : ℕ → Trace → Result Bytes × Trace
  unfolding credential_config
  credential_dial rwc t =
      let b = if env.bounder then some credential_disconnect_bound else none in
      let t' = dial_conn rwc credential_config b ∷ t in
      elim (env.answer_dial t) [
        | err e ↦ (err (errorf_w "credential connect: %w" [] e), close_rwc rwc ∷ t')
        | ok conn ↦ credential_leg rwc conn t'
      ]

  unfoldable pub fetch_token : Trace → Result Bytes × Trace
  fetch_token t = elim (env.answer_net_dial t) [
    | err e ↦ (err (errorf_w "credential dial: %w" [] e), net_dial ∷ t)
    | ok rwc ↦ credential_dial rwc (net_dial ∷ t)
  ]

  unfoldable pub durable_config : Bytes → ConnConfig
  durable_config token = record cred.config { login = token; passcode = [] }

  unfoldable pub durable_dial : Bytes → ℕ → Trace → Result ℕ × Trace
  durable_dial token rwc t =
      let t' = dial_conn rwc (durable_config token) none ∷ t in
      elim (env.answer_dial t) [
        | err e ↦ (err (errorf_w "auth exchange second connect: %w" [] e), close_rwc rwc ∷ t')
        | ok conn ↦ (ok conn, t')
      ]

  unfoldable pub durable_leg : Bytes → Trace → Result ℕ × Trace
  durable_leg token t = elim (env.answer_net_dial t) [
    | err e ↦ (err (errorf_w "auth exchange second dial: %w" [] e), net_dial ∷ t)
    | ok rwc ↦ durable_dial token rwc (net_dial ∷ t)
  ]

  unfoldable pub exchange : Trace → Result ℕ × Trace
  exchange t =
      let (result, t') = fetch_token t in
      elim result [
        | err e ↦ (err (errorf_w "auth exchange: %w" [] e), t')
        | ok token ↦ durable_leg token t'
      ]
