-- ===== src/Client/Session.antt =====
-- gridappsd/client.go: Connect, which makes both connections of the exchange by one dial.
use gridappsd_go.Common.{ℕ, Bytes, [], ◌∷◌, none, ◌≡◌, ◌≢◌, refl, sym, ◌∙◌, inl, inr}
use gridappsd_go.GoError.{Result, ok, err, Result-cases, ok≢err, ok_injective}
use gridappsd_go.Auth.{net_dial, dial_conn, Trace, Env}
use gridappsd_go.Auth.Exchange.{exchange, fetch_token, durable_config}
use gridappsd_go.Auth.Durable.{exchange_ok}
use gridappsd_go.Client.{
  Config, NetConn, raw_conn, Network, dial, address_of, raw_result, credentials, exchange_env,
  connect,
}
use gridappsd_go.Client.Dial.{Selected, dial_ok}

raw_result_ok :
    (r : Result NetConn) (raw : ℕ)
    → raw_result r ≡ ok raw
    → (c : NetConn) × (r ≡ ok c) × (raw_conn c ≡ raw)
unfolding raw_result
raw_result_ok (ok c) raw h = (c, refl, ok_injective h)
raw_result_ok (err e) raw h = absurd (ok≢err (sym h))

module _ (env : Env) (networks : Trace → Network) (cfg : Config) where
  connect-exchange :
      (conn : ℕ)
      → (connect env networks cfg).0 ≡ ok conn
      → (exchange (exchange_env env networks cfg) (credentials cfg) []).0 ≡ ok conn
  unfolding connect
  connect-exchange conn h =
      elim (Result-cases (exchange (exchange_env env networks cfg) (credentials cfg) []).0) [
        | inl (x, e) ↦ absurd (ok≢err (sym (rw (connect, e) at h)))
        | inr (c, e) ↦ e ∙ rw (connect, e) at h
      ]

  pub connect_ok :
      (conn : ℕ)
      → (connect env networks cfg).0 ≡ ok conn
      → (token : Bytes) × (t : Trace) × (c : NetConn) × (token ≢ [])
        × ((dial (networks t) (address_of cfg) cfg.tls_config cfg.allow_plaintext).0 ≡ ok c)
        × Selected (networks t) (address_of cfg) cfg.tls_config cfg.allow_plaintext c
        × (env.answer_dial (net_dial ∷ t) ≡ ok conn)
        × ((connect env networks cfg).1
            ≡ dial_conn
                (raw_conn c)
                (durable_config (exchange_env env networks cfg) (credentials cfg) token)
                none
              ∷ net_dial
              ∷ t)
  unfolding connect exchange_env
  connect_ok conn h =
      let made =
        exchange_ok (exchange_env env networks cfg) (credentials cfg) conn []
          (connect-exchange conn h) in
      let (token, raw, filled, fetched, dialled, returned, trace) = made in
      let t = (fetch_token (exchange_env env networks cfg) (credentials cfg) []).1 in
      let (c, d, same) = raw_result_ok _ raw dialled in
      (
        token,
        t,
        c,
        filled,
        d,
        dial_ok (networks t) (address_of cfg) cfg.tls_config cfg.allow_plaintext c d,
        returned,
        rw (same) trace,
      )
