-- ===== src/Stomp/Session/Told.antt =====
-- internal/stomp/stomp.go: what the events of a connection tell of its fields.
use gridappsd_go.Common.{
  ℕ, suc, ◌-◌, ◌<◌, ◌≤◌, Bool, true, Option, ◌≡◌, ◌≢◌, refl, sym, ap, ◌∙◌, ◌⊎◌, arith,
}
use gridappsd_go.Stomp.{ConnSettings}
use gridappsd_go.Stomp.Gate.{
  StompOutcome, set_caller, mark_ended, end_unsubscribe, begin_disconnect, choose_disconnect,
}
use gridappsd_go.Stomp.Gate.Order.{Ordered}
use gridappsd_go.Stomp.Bridge.{Select}
use gridappsd_go.Stomp.Session.{
  untouched, stopping, Session, add_sub, set_attempt, bridge_round, begin_attempt, end_attempt,
  ask_end, SessionStep, subscribes, rounds, unsubscribes, begins, ends, disconnects, asks, returns,
}
use gridappsd_go.Stomp.Session.Trace.{
  pending, asked, seen, begun, end_unsubs, round_rule, begin_rule,
}
use gridappsd_go.Stomp.Session.Running.{Running, Running-nonzero}

-- What the events tell of the connection.
pub record Told (s : Session) : Type 0 where
  pub count : pending s.events ≡ s.conn.unsubs
  pub end_known : seen s.events ≡ s.conn.ended
  pub shut : asked s.events ≡ true → (s.conn.closing ≡ true) × (s.conn.unsubs ≡ 0)
  pub unborn : (i : ℕ) → s.spawned ≤ i → begun i s.events ≡ 0
  pub fresh :
      (i : ℕ)
      → ((s.subs i).attempt ≡ untouched) ⊎ ((s.subs i).attempt ≡ stopping)
      → begun i s.events ≡ 0

module _ (stomp_error : ℕ → Option Bool) (settings : ConnSettings) where
  round-Told :
      (s : Session) (i : ℕ) (e : Select) → Told s → Told (bridge_round stomp_error settings s i e)
  unfolding mark_ended
  round-Told s i e told =
      round_rule stomp_error settings Told s i e
        (λ f. record {
          count = told.count;
          end_known = refl;
          shut = told.shut;
          unborn = told.unborn;
          fresh = λ j h. told.fresh j (ground (arith, h));
        })
        (λ f. record {
          count = told.count;
          end_known = told.end_known;
          shut = told.shut;
          unborn = told.unborn;
          fresh = λ j h. told.fresh j (ground (arith, h));
        })

  begin-Told :
      (s : Session) (i : ℕ)
      → i < s.spawned
      → (s.subs i).attempt ≡ stopping
      → Told s
      → Told (begin_attempt stomp_error settings s i)
  unfolding set_attempt
  begin-Told s i lt e told =
      begin_rule stomp_error settings Told s i
        (λ closed. record {
          count = told.count;
          end_known = told.end_known;
          shut = told.shut;
          unborn = told.unborn;
          fresh = λ j h. told.fresh j (ground (arith, h));
        })
        (λ opened. record {
          count = ap suc told.count;
          end_known = told.end_known;
          shut = λ h. ground (arith, told.shut h);
          unborn = λ j le. ground (arith, told.unborn j le);
          fresh = λ j h. ground (arith, told.fresh j);
        })

  end-Told :
      (s : Session) (i : ℕ) (o : StompOutcome)
      → s.conn.unsubs ≢ 0
      → Told s
      → Told (end_attempt stomp_error settings s i o)
  unfolding end_attempt set_attempt
  end-Told s i o nonzero told = record {
    count = ap (λ n. n - 1) told.count ∙ sym (end_unsubs s.conn s.conn.unsubs);
    end_known = unfold end_unsubscribe in told.end_known;
    shut = λ h. absurd (nonzero (told.shut h).1);
    unborn = told.unborn;
    fresh = λ j h. told.fresh j (ground (arith, h));
  }

  pub SessionStep-Told :
      {s u : Session}
      → SessionStep stomp_error settings s u
      → Ordered s.conn
      → Running s
      → Told s
      → Told u
  unfolding add_sub set_attempt ask_end begin_disconnect choose_disconnect set_caller
  SessionStep-Told {s} subscribes ordered running told = record {
    count = told.count;
    end_known = told.end_known;
    shut = told.shut;
    unborn = λ i le. told.unborn i (omega arith);
    fresh = λ i h. ground (arith, told.unborn i, told.fresh i);
  }
  SessionStep-Told (rounds i e lt f g) ordered running told = round-Told _ i e told
  SessionStep-Told (unsubscribes i lt e) ordered running told = record {
    count = told.count;
    end_known = told.end_known;
    shut = told.shut;
    unborn = told.unborn;
    fresh = λ j h. ground (arith, told.fresh j);
  }
  SessionStep-Told (begins i lt e) ordered running told = begin-Told _ i lt e told
  SessionStep-Told {s} (ends i o lt e) ordered running told =
      end-Told s i o (Running-nonzero stomp_error settings s i lt e running) told
  SessionStep-Told (disconnects j e) ordered running told = record {
    count = told.count;
    end_known = told.end_known;
    shut = λ h. (refl, (told.shut h).1);
    unborn = told.unborn;
    fresh = told.fresh;
  }
  SessionStep-Told (asks j e f) ordered running told = record {
    count = told.count;
    end_known = told.end_known;
    shut = λ h. (ordered.refuses j (λ q. cc), f);
    unborn = told.unborn;
    fresh = told.fresh;
  }
  SessionStep-Told (returns j e) ordered running told = record {
    count = told.count;
    end_known = told.end_known;
    shut = told.shut;
    unborn = told.unborn;
    fresh = told.fresh;
  }
