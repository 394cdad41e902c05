-- ===== src/Stomp/Session/Order.antt =====
-- internal/stomp/stomp.go: every run of a connection asks go-stomp only what it bears, and no
-- Disconnect waits for nothing.
use gridappsd_go.Common.{
  ℕ, suc, Bool, false, Option, subst, ◌≡◌, ◌≢◌, refl, sym, ap, ◌∙◌, ◌⊎◌, inl, inr, arith,
  Bool-cases,
}
use gridappsd_go.Stomp.{ConnSettings}
use gridappsd_go.Stomp.Gate.{
  finished, recovered, Conn, idle, new_conn, set_caller, mark_ended, begin_unsubscribe,
  begin_disconnect, choose_disconnect, GateStep, begins_unsubscribe, ends_unsubscribe, marks_ended,
  GateReach,
}
use gridappsd_go.Stomp.Gate
use gridappsd_go.Stomp.Gate.Order.{Ordered, GateReach-Ordered}
use gridappsd_go.Stomp.Session.{
  Session, new_session, add_sub, set_attempt, end_attempt, ask_end, SessionStep, subscribes, rounds,
  unsubscribes, begins, ends, disconnects, asks, returns, SessionReach, start, later,
}
use gridappsd_go.Stomp.Session.Trace.{
  asked, end_calls, Legal, end_calls_lem, round_rule, begin_rule,
}
use gridappsd_go.Stomp.Session.Running.{Running, Running-nonzero, SessionStep-Running}
use gridappsd_go.Stomp.Session.Told.{Told, SessionStep-Told}
use gridappsd_go.Stomp.Gate.Order.{GateStep-Ordered}

begin_unsubscribe-open :
    (c : Conn) → c.closing ≡ false → (begin_unsubscribe c).0 ≡ record c { unsubs = suc c.unsubs }
unfolding begin_unsubscribe
begin_unsubscribe-open c e = ground arith

module _ (stomp_error : ℕ → Option Bool) (settings : ConnSettings) where
  SessionStep-Ordered :
      {s u : Session}
      → SessionStep stomp_error settings s u
      → Running s
      → Ordered s.conn
      → Ordered u.conn
  unfolding add_sub set_attempt ask_end end_attempt
  SessionStep-Ordered subscribes running ordered = ordered
  SessionStep-Ordered {s} (rounds i e lt f g) running ordered =
      round_rule stomp_error settings (λ (u : Session). Ordered u.conn) s i e
        (λ q. GateStep-Ordered marks_ended ordered) (λ q. ordered)
  SessionStep-Ordered (unsubscribes i lt e) running ordered = ordered
  SessionStep-Ordered {s} (begins i lt e) running ordered =
      let begun_conn : Ordered (begin_unsubscribe s.conn).0 =
        GateStep-Ordered begins_unsubscribe ordered in
      begin_rule stomp_error settings (λ (u : Session). Ordered u.conn) s i (λ q. ordered)
        (λ q. subst Ordered (begin_unsubscribe-open s.conn q) begun_conn)
  SessionStep-Ordered {s} (ends i o lt e) running ordered =
      GateStep-Ordered (ends_unsubscribe (Running-nonzero stomp_error settings s i lt e running))
        ordered
  SessionStep-Ordered (disconnects j e) running ordered =
      GateStep-Ordered (Gate.disconnects j e) ordered
  SessionStep-Ordered (asks j e f) running ordered = GateStep-Ordered (Gate.chooses j e f) ordered
  SessionStep-Ordered (returns j e) running ordered = GateStep-Ordered (Gate.returns j e) ordered

  -- What holds in every session.
  pub record Kept (s : Session) : Type 0 where
    pub ordered : Ordered s.conn
    pub running : Running s
    pub told : Told s
    pub legal : Legal settings s.events

  unasked :
      {s : Session}
      → Told s
      → (s.conn.closing ≡ false) ⊎ (s.conn.unsubs ≢ 0)
      → asked s.events ≡ false
  unasked {s} told h = elim (Bool-cases (asked s.events)) [
    | inl e ↦
        let (shut, none_left) = told.shut e in
        elim h [ inl opened ↦ absurd (ground arith) | inr some_left ↦ absurd (some_left none_left) ]
    | inr e ↦ e
  ]

  SessionStep-Legal :
      {s u : Session} → SessionStep stomp_error settings s u → Kept s → Legal settings u.events
  unfolding add_sub set_attempt ask_end end_attempt
  SessionStep-Legal subscribes kept = kept.legal
  SessionStep-Legal {s} (rounds i e lt f g) kept =
      round_rule stomp_error settings (λ (u : Session). Legal settings u.events) s i e
        (λ q. kept.legal) (λ q. kept.legal)
  SessionStep-Legal (unsubscribes i lt e) kept = kept.legal
  SessionStep-Legal {s} (begins i lt e) kept =
      begin_rule stomp_error settings (λ (u : Session). Legal settings u.events) s i
        (λ q. kept.legal) (λ q. (unasked kept.told (inl q), kept.told.fresh i (inr e), kept.legal))
  SessionStep-Legal {s} (ends i o lt e) kept =
      let some_left = Running-nonzero stomp_error settings s i lt e kept.running in
      (unasked kept.told (inr some_left), (λ z. some_left (sym kept.told.count ∙ z)), kept.legal)
  SessionStep-Legal (disconnects j e) kept = kept.legal
  SessionStep-Legal {s} (asks j e f) kept = (
    kept.told.count ∙ f,
    end_calls_lem settings s.conn.ended ∙ ap (end_calls settings) (sym kept.told.end_known),
    kept.legal,
  )
  SessionStep-Legal (returns j e) kept = kept.legal

  SessionStep-Kept : {s u : Session} → SessionStep stomp_error settings s u → Kept s → Kept u
  SessionStep-Kept step kept = record {
    ordered = SessionStep-Ordered step kept.running kept.ordered;
    running = SessionStep-Running stomp_error settings step kept.running;
    told = SessionStep-Told stomp_error settings step kept.ordered kept.running kept.told;
    legal = SessionStep-Legal step kept;
  }

  SessionReach-Kept : {s : Session} → SessionReach stomp_error settings s → Kept s
  unfolding new_session
  SessionReach-Kept start = record {
    ordered = GateReach-Ordered Gate.start;
    running = unfold new_conn in refl;
    told =
        unfold new_conn in
        record {
          count = refl;
          end_known = refl;
          shut = λ h. cc;
          unborn = λ i le. refl;
          fresh = λ i h. refl;
        };
    legal = tt;
  }
  SessionReach-Kept (later reach step) = SessionStep-Kept step (SessionReach-Kept reach)

  -- In every run of a connection, go-stomp is asked for what it bears: each subscription is
  -- unsubscribed once at most, an unsubscribe begins and returns before any end of the connection is
  -- asked for, an end is asked for while none is under way, and without a receipt exactly if an
  -- ERROR frame that ends the connection was seen before.
  pub SessionReach-Legal :
      {s : Session} → SessionReach stomp_error settings s → Legal settings s.events
  SessionReach-Legal reach = (SessionReach-Kept reach).legal
