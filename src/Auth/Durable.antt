-- ===== src/Auth/Durable.antt =====
-- internal/auth/auth.go: the durable connection of Exchange is made with a token of fetchToken.
use gridappsd_go.Common.{
  ℕ, Bytes, [], ◌∷◌, Option, some, none, ◌≡◌, ◌≢◌, refl, sym, ap, subst, ◌∙◌, ◌⊎◌, inl, inr,
  Option-cases, List-cases,
}
use gridappsd_go.GoError.{GoError, errorf_w, Result, ok, err, Result-cases, ok≢err}
use gridappsd_go.Auth.{
  net_dial, dial_conn, close_rwc, rand_read, Trace, Awaited, arrived, channel_closed, context_done,
  Env, Credentials,
}
use gridappsd_go.Auth.Encoding.{trim_space}
use gridappsd_go.Auth.Exchange.{
  read_token, send_request, subscribe_reply, request_token, settle, credential_leg, credential_dial,
  fetch_token, durable_dial, durable_leg, durable_config, exchange,
}

-- A result that is an error or a token with at least one byte.
pub data Filled : Result Bytes → Type 0 where
  failed : {x : GoError} → Filled (err x)
  filled : {c : ℕ} {s : Bytes} → Filled (ok (c ∷ s))

Filled-nonempty : (token : Bytes) → Filled (ok token) → token ≢ []
Filled-nonempty [] h = elim h [ ]
Filled-nonempty (c ∷ s) filled = λ e. cc

read_token-Filled : (a : Awaited) → Filled (read_token a)
unfolding read_token
read_token-Filled channel_closed = failed
read_token-Filled (context_done e) = failed
read_token-Filled (arrived m) = elim (Option-cases m.error) [
  | inr (x, e) ↦ rw (read_token, e) failed
  | inl e ↦ elim (List-cases (trim_space m.body)) [
    | inl e' ↦ rw (read_token, e, e') failed
    | inr (c, s, e') ↦ rw (read_token, e, e') filled
  ]
]

module _ (env : Env) (cred : Credentials) where
  send_request-Filled :
      (conn sub : ℕ) (reply : Bytes) (t : Trace)
      → Filled (send_request env cred conn sub reply t).0.1
  unfolding send_request
  send_request-Filled conn sub reply t = elim (Option-cases (env.answer_send t)) [
    | inl e ↦ rw (e, send_request) (read_token-Filled _)
    | inr (x, e) ↦ rw (e, send_request) failed
  ]

  request_token-Filled : (conn : ℕ) (t : Trace) → Filled (request_token env cred conn t).0.1
  unfolding request_token subscribe_reply
  request_token-Filled conn t = elim (Result-cases (env.answer_random t)) [
    | inl (x, e) ↦ rw (e, request_token) failed
    | inr (nonce, e) ↦
        rw (e, request_token)
          (elim (Result-cases (env.answer_subscribe (rand_read ∷ t))) [
            | inl (x, e') ↦ rw (e', subscribe_reply) failed
            | inr (sub, e') ↦ rw (e', subscribe_reply) (send_request-Filled conn sub _ _)
          ])
  ]

  settle-Filled :
      (rwc : ℕ) (step ctx : Option GoError) (result : Result Bytes) (t : Trace)
      → Filled result
      → Filled (settle env cred rwc step ctx result t).0
  unfolding settle
  settle-Filled rwc none none (ok x) t h = h
  settle-Filled rwc none none (err x) t h = h
  settle-Filled rwc none (some c) (ok x) t h = failed
  settle-Filled rwc none (some c) (err x) t h = h
  settle-Filled rwc (some s) none (ok x) t h = h
  settle-Filled rwc (some s) none (err x) t h = h
  settle-Filled rwc (some s) (some c) (ok x) t h = failed
  settle-Filled rwc (some s) (some c) (err x) t h = h

  fetch_token-Filled : (t : Trace) → Filled (fetch_token env cred t).0
  unfolding fetch_token credential_dial credential_leg
  fetch_token-Filled t = elim (Result-cases (env.answer_net_dial t)) [
    | inl (x, e) ↦ rw (e, fetch_token) failed
    | inr (rwc, e) ↦
        rw (e, fetch_token)
          (elim (Result-cases (env.answer_dial (net_dial ∷ t))) [
            | inl (x, e') ↦ rw (e', credential_dial) failed
            | inr (conn, e') ↦
                rw (e', credential_dial) (settle-Filled rwc _ _ _ _ (request_token-Filled conn _))
          ])
  ]

  -- How the second connection of Exchange ends: with the transport connection, made as configured
  -- on a connection of its own with the token and no password, or with an error, and then a
  -- connection that netDial gave is closed.
  durable_leg-cases :
      (token : Bytes) (t : Trace)
      → let out = durable_leg env cred token t in
        let dialled =
          λ (rwc : ℕ). dial_conn rwc (durable_config env cred token) none ∷ net_dial ∷ t in
        ((conn rwc : ℕ) × (out.0 ≡ ok conn)
          × (env.answer_net_dial t ≡ ok rwc)
          × (env.answer_dial (net_dial ∷ t) ≡ ok conn)
          × (out.1 ≡ dialled rwc))
        ⊎ ((x : GoError) × (out.0 ≡ err x)
            × (((e : GoError) × (env.answer_net_dial t ≡ err e) × (out.1 ≡ net_dial ∷ t))
                ⊎ ((rwc : ℕ) × (env.answer_net_dial t ≡ ok rwc)
                    × (out.1 ≡ close_rwc rwc ∷ dialled rwc))))
  unfolding durable_leg durable_dial
  durable_leg-cases token t = elim (Result-cases (env.answer_net_dial t)) [
    | inl (x, e) ↦ rw (durable_leg, e) (inr (_, refl, inl (_, refl, refl)))
    | inr (rwc, e) ↦
        let t' = dial_conn rwc (durable_config env cred token) none ∷ net_dial ∷ t in
        elim (Result-cases (env.answer_dial (net_dial ∷ t))) [
          | inl (x, e') ↦
              rw (durable_leg, e, durable_dial, e') (inr (_, refl, inr (rwc, refl, refl)))
          | inr (conn, e') ↦
              rw (durable_leg, e, durable_dial, e') (inl (conn, rwc, refl, refl, refl, refl))
        ]
  ]

  fetch_fails :
      (t : Trace) (x : GoError)
      → (fetch_token env cred t).0 ≡ err x
      → (exchange env cred t).0 ≡ err (errorf_w "auth exchange: %w" [] x)
  unfolding exchange
  fetch_fails t x e = rw (exchange, e)

  fetch_gives :
      (t : Trace) (token : Bytes)
      → (fetch_token env cred t).0 ≡ ok token
      → exchange env cred t ≡ durable_leg env cred token (fetch_token env cred t).1
  unfolding exchange
  fetch_gives t token e = rw (exchange, e)

  pub exchange_ok :
      (conn : ℕ) (t : Trace)
      → (exchange env cred t).0 ≡ ok conn
      → (token : Bytes) × (rwc : ℕ) × (token ≢ [])
        × ((fetch_token env cred t).0 ≡ ok token)
        × (env.answer_net_dial (fetch_token env cred t).1 ≡ ok rwc)
        × (env.answer_dial (net_dial ∷ (fetch_token env cred t).1) ≡ ok conn)
        × ((exchange env cred t).1
            ≡ dial_conn rwc (durable_config env cred token) none
              ∷ net_dial
              ∷ (fetch_token env cred t).1)
  exchange_ok conn t h = elim (Result-cases (fetch_token env cred t).0) [
    | inl (x, e) ↦ absurd (ok≢err (sym h ∙ fetch_fails t x e))
    | inr (token, e) ↦ elim (durable_leg-cases token (fetch_token env cred t).1) [
      | inl (conn', rwc, r, d, made, q) ↦ (
        token,
        rwc,
        Filled-nonempty token (subst Filled e (fetch_token-Filled t)),
        e,
        d,
        made ∙ sym r ∙ sym (ap (λ p. p.0) (fetch_gives t token e)) ∙ h,
        rw (fetch_gives t token e) q,
      )
      | inr (x, r, q) ↦ absurd (ok≢err (sym (rw (fetch_gives t token e) at h) ∙ r))
    ]
  ]
