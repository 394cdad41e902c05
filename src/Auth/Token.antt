-- ===== src/Auth/Token.antt =====
-- internal/auth/auth.go: the order of the calls of the exchange, and what a durable connection
-- rests on.
use gridappsd_go.Common.{
  if_rule, ℕ, Bytes, Bool, true, false, [], ◌∷◌, ◌++◌, codes, Option, some, none, ◌≡◌, refl, inl,
  inr, Option-cases,
}
use gridappsd_go.GoError.{GoError, Result, ok, err, Result-cases}
use gridappsd_go.Message.{header_reply_to}
use gridappsd_go.Auth.{
  NetCall, net_dial, dial_conn, close_rwc, rand_read, subscribe, send, receive, unsubscribe,
  disconnect, log_warning, Trace, Env, Credentials, token_topic,
}
use gridappsd_go.Auth.Encoding.{base64_encode}
use gridappsd_go.Auth.Steps.{
  unsubscribe_step, disconnect_step, finish_teardown, end_credential_conn,
}
use gridappsd_go.Auth.Exchange.{
  send_request, subscribe_reply, request_token, settle, credential_leg, credential_dial,
  fetch_token, durable_dial, durable_leg, exchange,
}

-- A call that sends no message.
pub is_send : NetCall → Bool
is_send (send conn dest kind body headers) = true
is_send net_dial = false
is_send (dial_conn rwc config b) = false
is_send (close_rwc rwc) = false
is_send rand_read = false
is_send (subscribe conn dest) = false
is_send (receive sub) = false
is_send (unsubscribe sub) = false
is_send (disconnect conn) = false
is_send (log_warning b e) = false

-- A trace in which each message sent is a token request for the credentials, to the token topic,
-- right after the subscribe on the same connection to the queue that its reply-to names.
pub data Prepared (cred : Credentials) : Trace → Type 0 where
  start : Prepared cred []
  other : {c : NetCall} {t : Trace} → is_send c ≡ false → Prepared cred t → Prepared cred (c ∷ t)
  request :
      (conn : ℕ) (reply : Bytes) {t : Trace}
      → Prepared cred t
      → Prepared cred (
          send conn token_topic
            (codes "text/plain")
            (base64_encode (cred.user ++ codes ":" ++ cred.pass))
            ((header_reply_to, reply) ∷ [])
          ∷ subscribe conn (codes "/queue/" ++ reply)
          ∷ t)

module _ (env : Env) (cred : Credentials) where
  unsubscribe_step-Prepared :
      (sub : Option ℕ) (t : Trace) → Prepared cred t → Prepared cred (unsubscribe_step env sub t).1
  unfolding unsubscribe_step is_send
  unsubscribe_step-Prepared none t h = h
  unsubscribe_step-Prepared (some sub) t h = elim (Option-cases (env.ctx_err t)) [
    | inl e ↦ rw (e, unsubscribe_step) (other refl h)
    | inr (x, e) ↦ rw (e, unsubscribe_step) h
  ]

  disconnect_step-Prepared :
      (conn : ℕ) (t : Trace) → Prepared cred t → Prepared cred (disconnect_step env conn t).1
  unfolding disconnect_step is_send
  disconnect_step-Prepared conn t h = elim (Option-cases (env.ctx_err t)) [
    | inl e ↦ rw (e, disconnect_step) (other refl h)
    | inr (x, e) ↦ rw (e, disconnect_step) h
  ]

  finish_teardown-Prepared :
      (rwc : ℕ) (step : Option GoError) (t : Trace)
      → Prepared cred t
      → Prepared cred (finish_teardown env rwc step t).1
  unfolding finish_teardown is_send
  finish_teardown-Prepared rwc step t h = elim (Option-cases (env.ctx_err t)) [
    | inl e ↦ rw (e, finish_teardown) h
    | inr (x, e) ↦
        rw (e, finish_teardown)
          (if_rule (Prepared cred) (env.close_ran t) (λ _. other refl h) (λ _. h))
  ]

  end_credential_conn-Prepared :
      (rwc conn : ℕ) (sub : Option ℕ) (t : Trace)
      → Prepared cred t
      → Prepared cred (end_credential_conn env rwc conn sub t).1
  unfolding end_credential_conn
  end_credential_conn-Prepared rwc conn sub t h =
      finish_teardown-Prepared rwc _ _
        (disconnect_step-Prepared conn _ (unsubscribe_step-Prepared sub t h))

  settle-Prepared :
      (rwc : ℕ) (step ctx : Option GoError) (result : Result Bytes) (t : Trace)
      → Prepared cred t
      → Prepared cred (settle env cred rwc step ctx result t).1
  unfolding settle is_send
  settle-Prepared rwc none none (ok x) t h = h
  settle-Prepared rwc none none (err x) t h = h
  settle-Prepared rwc none (some c) (ok x) t h = h
  settle-Prepared rwc none (some c) (err x) t h = h
  settle-Prepared rwc (some s) none (ok x) t h = other refl (other refl h)
  settle-Prepared rwc (some s) none (err x) t h = other refl (other refl h)
  settle-Prepared rwc (some s) (some c) (ok x) t h = h
  settle-Prepared rwc (some s) (some c) (err x) t h = other refl h

  send_request-Prepared :
      (conn sub : ℕ) (reply : Bytes) (t : Trace)
      → Prepared cred t
      → Prepared cred
          (send_request env cred conn sub reply (subscribe conn (codes "/queue/" ++ reply) ∷ t)).1
  unfolding send_request is_send
  send_request-Prepared conn sub reply t h =
      let t' = subscribe conn (codes "/queue/" ++ reply) ∷ t in
      elim (Option-cases (env.answer_send t')) [
        | inl e ↦ rw (e, send_request) (other refl (request conn reply h))
        | inr (x, e) ↦ rw (e, send_request) (request conn reply h)
      ]

  subscribe_reply-Prepared :
      (conn : ℕ) (reply : Bytes) (t : Trace)
      → Prepared cred t
      → Prepared cred (subscribe_reply env cred conn reply t).1
  unfolding subscribe_reply is_send
  subscribe_reply-Prepared conn reply t h = elim (Result-cases (env.answer_subscribe t)) [
    | inl (x, e) ↦ rw (e, subscribe_reply) (other refl h)
    | inr (sub, e) ↦ rw (e, subscribe_reply) (send_request-Prepared conn sub reply t h)
  ]

  request_token-Prepared :
      (conn : ℕ) (t : Trace) → Prepared cred t → Prepared cred (request_token env cred conn t).1
  unfolding request_token is_send
  request_token-Prepared conn t h = elim (Result-cases (env.answer_random t)) [
    | inl (x, e) ↦ rw (e, request_token) (other refl h)
    | inr (nonce, e) ↦ rw (e, request_token) (subscribe_reply-Prepared conn _ _ (other refl h))
  ]

  credential_leg-Prepared :
      (rwc conn : ℕ) (t : Trace)
      → Prepared cred t
      → Prepared cred (credential_leg env cred rwc conn t).1
  unfolding credential_leg
  credential_leg-Prepared rwc conn t h =
      settle-Prepared rwc _ _ _ _
        (end_credential_conn-Prepared rwc conn _ _ (request_token-Prepared conn t h))

  fetch_token-Prepared : (t : Trace) → Prepared cred t → Prepared cred (fetch_token env cred t).1
  unfolding fetch_token credential_dial is_send
  fetch_token-Prepared t h = elim (Result-cases (env.answer_net_dial t)) [
    | inl (x, e) ↦ rw (e, fetch_token) (other refl h)
    | inr (rwc, e) ↦
        rw (e, fetch_token)
          (elim (Result-cases (env.answer_dial (net_dial ∷ t))) [
            | inl (x, e') ↦ rw (e', credential_dial) (other refl (other refl (other refl h)))
            | inr (conn, e') ↦
                rw (e', credential_dial)
                  (credential_leg-Prepared rwc conn _ (other refl (other refl h)))
          ])
  ]

  durable_leg-Prepared :
      (token : Bytes) (t : Trace) → Prepared cred t → Prepared cred (durable_leg env cred token t).1
  unfolding durable_leg durable_dial is_send
  durable_leg-Prepared token t h = elim (Result-cases (env.answer_net_dial t)) [
    | inl (x, e) ↦ rw (e, durable_leg) (other refl h)
    | inr (rwc, e) ↦
        rw (e, durable_leg)
          (elim (Result-cases (env.answer_dial (net_dial ∷ t))) [
            | inl (x, e') ↦ rw (e', durable_dial) (other refl (other refl (other refl h)))
            | inr (conn, e') ↦ rw (e', durable_dial) (other refl (other refl h))
          ])
  ]

  -- Every message that Exchange sends is a token request with the credentials, to the token topic
  -- and right after the subscribe, on the same connection, to the queue that its reply-to names.
  pub exchange-Prepared : (t : Trace) → Prepared cred t → Prepared cred (exchange env cred t).1
  unfolding exchange
  exchange-Prepared t h = elim (Result-cases (fetch_token env cred t).0) [
    | inl (x, e) ↦ rw (exchange, e) (fetch_token-Prepared t h)
    | inr (token, e) ↦ rw (exchange, e) (durable_leg-Prepared token _ (fetch_token-Prepared t h))
  ]
