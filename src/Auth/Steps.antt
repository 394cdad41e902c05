-- ===== src/Auth/Steps.antt =====
-- internal/auth/auth.go: the rendering of the steps' errors, and endCredentialConn.
use gridappsd_go.Common.{ℕ, [], ◌∷◌, Option, some, none, if◌then◌else◌}
use gridappsd_go.GoError.{GoError, runtime_error, errorf_w, errorf_ww, bounded_error}
use gridappsd_go.Auth.{
  close_rwc, unsubscribe, disconnect, Trace, Unsubscribed, returned, panicked, Env,
}

unfoldable pub bound : Option GoError → Option GoError
bound none = none
bound (some e) = some (bounded_error e)

unfoldable pub join_steps : Option GoError → Option GoError → Option GoError
join_steps (some u) (some d) = some (errorf_ww "%w; %w" [] u d)
join_steps (some u) none = some u
join_steps none derr = derr

-- The recover in `unsubscribe`.
unfoldable pub recover_unsubscribe : Unsubscribed → Option GoError
recover_unsubscribe (returned e) = e
recover_unsubscribe (panicked n) = some (errorf_w "unsubscribe: %w" [] (runtime_error n))

module _ (env : Env) where
  -- The steps of the goroutine, each made only while the context is not done: the error of the
  -- step, and the trace after it.
  unfoldable pub unsubscribe_step : Option ℕ → Trace → Option GoError × Trace
  unsubscribe_step none t = (none, t)
  unsubscribe_step (some sub) t = elim (env.ctx_err t) [
    | some e ↦ (none, t)
    | none ↦ (recover_unsubscribe (env.answer_unsubscribe t), unsubscribe sub ∷ t)
  ]

  unfoldable pub disconnect_step : ℕ → Trace → Option GoError × Trace
  disconnect_step conn t = elim (env.ctx_err t) [
    | some e ↦ (none, t)
    | none ↦ (env.answer_disconnect t, disconnect conn ∷ t)
  ]

  -- The end of the goroutine and of the caller, on the joined step error. Where the context is
  -- done by now, the function of AfterFunc has closed `rwc` or is still to do so, if `stop` does not
  -- keep it from it, and the caller may have returned before the steps ended.
  unfoldable pub finish_teardown :
      ℕ → Option GoError → Trace → (Option GoError × Option GoError) × Trace
  finish_teardown rwc step t = elim (env.ctx_err t) [
    | none ↦ ((step, none), t)
    | some e ↦ (
      (if env.saw_done t then step else none, some e),
      if env.close_ran t then close_rwc rwc ∷ t else t,
    )
  ]

  -- The results stepErr and ctxErr of endCredentialConn, and the trace.
  unfoldable pub end_credential_conn :
      ℕ → ℕ → Option ℕ → Trace → (Option GoError × Option GoError) × Trace
  end_credential_conn rwc conn sub t =
      let (uerr, t1) = unsubscribe_step sub t in
      let (derr, t2) = disconnect_step conn t1 in
      finish_teardown rwc (join_steps (bound uerr) (bound derr)) t2
