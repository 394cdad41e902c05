-- ===== src/Auth/Teardown.antt =====
-- internal/auth/auth.go: the credential connection is always ended, and what its teardown does to
-- the token.
use mathlib.Core.List.{Memᴰ}
use gridappsd_go.Common.{ℕ, Bytes, false, ◌++◌, Option, some, ◌≡◌, ◌⊎◌}
use gridappsd_go.GoError.{GoError, Result, ok, err}
use gridappsd_go.Auth.{close_rwc, disconnect, Trace, Env, Credentials}

module _ (env : Env) where
  -- The context was done at the end of a teardown, and the close that this brings had not run.
  abbrev pub CloseDue : Trace → Type 0
  CloseDue t =
      (after before : Trace) × (e : GoError) × (t ≡ after ++ before)
      × (env.ctx_err before ≡ some e)
      × (env.close_ran before ≡ false)

  -- How a teardown leaves the credential connection: closed, asked to disconnect, or with its close
  -- due and the error of the context reported.
  abbrev pub Ended : ℕ → ℕ → Option GoError → Trace → Type 0
  Ended rwc conn ctx t =
      Memᴰ (close_rwc rwc) t
      ⊎ Memᴰ (disconnect conn) t
      ⊎ ((c : GoError) × (ctx ≡ some c) × CloseDue t)

  -- What is left of the connection when fetchToken returns `result`.
  abbrev pub Settled : ℕ → ℕ → Result Bytes → Trace → Type 0
  Settled rwc conn result t =
      Memᴰ (close_rwc rwc) t
      ⊎ Memᴰ (disconnect conn) t
      ⊎ ((x : GoError) × (result ≡ err x) × CloseDue t)

  module _ (cred : Credentials) where
    abbrev pub Given : ℕ → Trace → Result Bytes × Trace → Type 0
    Given rwc t out =
        Memᴰ (close_rwc rwc) out.1
        ⊎ ((conn : ℕ) × (env.answer_dial t ≡ ok conn) × Settled rwc conn out.0 out.1)
