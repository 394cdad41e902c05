-- ===== src/Stomp/Session/Running.antt =====
-- internal/stomp/stomp.go: the WaitGroup of a connection counts the unsubscribes of its subscriptions.
use gridappsd_go.Common.{
  ℕ, ◌+◌, ◌<◌, Bool, Option, some, if_pos, ℕ_discrete, ◌≡◌, ◌≢◌, refl, ap, ◌∙◌, inl, inr, arith,
}
use gridappsd_go.Common.Families.{update, total, total-term, total_change}
use gridappsd_go.GoError.{value, disconnected}
use gridappsd_go.Stomp.{ConnSettings}
use gridappsd_go.Stomp.Gate.{
  finished, recovered, set_caller, mark_ended, begin_disconnect, choose_disconnect,
}
use gridappsd_go.Stomp.Bridge.{round, new_bridge}
use gridappsd_go.Stomp.Session.{
  Attempt, untouched, stopping, attempting, over, SubState, Session, add_sub, set_attempt,
  end_attempt, ask_end, SessionStep, subscribes, rounds, unsubscribes, begins, ends, disconnects,
  asks, returns,
}
use gridappsd_go.Stomp.Session.Trace.{end_unsubs, round_rule, begin_rule}

-- The unsubscribes that the connection counts are those of its subscriptions.
abbrev pub going : Attempt → ℕ
going attempting = 1
going untouched = 0
going stopping = 0
going (over o) = 0

abbrev pub Running : Session → Type 0
Running s = total s.spawned (λ i. going (s.subs i).attempt) ≡ s.conn.unsubs

module _ (stomp_error : ℕ → Option Bool) (settings : ConnSettings) where
  pub Running-nonzero :
      (s : Session) (i : ℕ)
      → i < s.spawned
      → (s.subs i).attempt ≡ attempting
      → Running s
      → s.conn.unsubs ≢ 0
  Running-nonzero s i lt e running z =
      let one : going (s.subs i).attempt ≡ 1 = ap going e in
      absurd (omega (arith, total-term s.spawned i (λ j. going (s.subs j).attempt) lt))

  -- The sum after a change of one subscription.
  Running-update :
      (s : Session) (i : ℕ) (sub : SubState)
      → i < s.spawned
      → total s.spawned (λ j. going (update s.subs i sub j).attempt) + going (s.subs i).attempt
        ≡ total s.spawned (λ j. going (s.subs j).attempt) + going sub.attempt
  Running-update s i sub lt =
      elim (total_change s.spawned i (λ j. going (s.subs j).attempt)
        (λ j. going (update s.subs i sub j).attempt) (λ j other. ground arith)) [
          | inl (over_, e) ↦ absurd (omega arith)
          | inr (within, e) ↦
              e
              ∙ ap
                  (λ (x : SubState).
                    total s.spawned (λ j. going (s.subs j).attempt) + going x.attempt)
                  (if_pos (ℕ_discrete i i) refl sub (s.subs i))
        ]

  attempt_total :
      (s : Session) (i : ℕ) (a : Attempt)
      → i < s.spawned
      → total (set_attempt s i a).spawned (λ j. going ((set_attempt s i a).subs j).attempt)
          + going (s.subs i).attempt
        ≡ total s.spawned (λ j. going (s.subs j).attempt) + going a
  unfolding set_attempt
  attempt_total s i a lt =
      Running-update s i (record { bridge = (s.subs i).bridge; attempt = a }) lt

  add-Running : (s : Session) → Running s → Running (add_sub s)
  unfolding add_sub
  add-Running s running =
      let new : SubState = record { bridge = new_bridge; attempt = untouched } in
      let here =
        ap (λ (x : SubState). going x.attempt)
          (if_pos (ℕ_discrete s.spawned s.spawned) refl new (s.subs s.spawned)) in
      elim (total_change s.spawned s.spawned (λ j. going (s.subs j).attempt)
        (λ j. going (update s.subs s.spawned new j).attempt) (λ j other. ground arith)) [
          | inl (over_, e) ↦ omega (arith, here, e)
          | inr (within, e) ↦ absurd (omega arith)
        ]

  pub SessionStep-Running :
      {s u : Session} → SessionStep stomp_error settings s u → Running s → Running u
  unfolding set_attempt end_attempt ask_end begin_disconnect choose_disconnect set_caller mark_ended
  SessionStep-Running {s} subscribes running = add-Running s running
  SessionStep-Running {s} (rounds i e lt f g) running =
      let same =
        Running-update s i (record (s.subs i) { bridge = round stomp_error (s.subs i).bridge e })
          lt in
      round_rule stomp_error settings Running s i e (λ q. omega arith) (λ q. omega arith)
  SessionStep-Running {s} (unsubscribes i lt e) running =
      omega (arith, ap going e, attempt_total s i stopping lt)
  SessionStep-Running {s} (begins i lt e) running =
      let refused = over (finished (some (value disconnected))) in
      begin_rule stomp_error settings Running s i
        (λ q. omega (arith, ap going e, attempt_total s i refused lt))
        (λ q. omega (arith, ap going e, attempt_total s i attempting lt))
  SessionStep-Running {s} (ends i o lt e) running = omega (
    arith,
    ap going e,
    end_unsubs s.conn s.conn.unsubs,
    attempt_total s i (over (recovered o)) lt,
  )
  SessionStep-Running (disconnects j e) running = running
  SessionStep-Running (asks j e f) running = running
  SessionStep-Running (returns j e) running = running
