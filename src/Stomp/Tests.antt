-- ===== src/Stomp/Tests.antt =====
-- The theorems about the STOMP connection at concrete runs.
use gridappsd_go.Common.{ℕ, codes, Bool, true, List, [], ◌∷◌, Option, some, none, ◌≡◌, refl, arith}
use gridappsd_go.GoError.{value, foreign, Result, err}
use gridappsd_go.Transport.{pos, ConnConfig}
use gridappsd_go.Stomp.{Dialer, dial, DialCall}
use gridappsd_go.Stomp.Handshake.{deadline_after, deadline_at_connect, dial_deadline}
use gridappsd_go.Stomp.Gate.{
  new_conn, begin_unsubscribe, end_unsubscribe, begin_disconnect, set_caller,
}
use gridappsd_go.Stomp.Bridge.{
  StompMessage, Select, received, delivered, source_closed, new_bridge, run,
}
use gridappsd_go.Stomp.Bridge.Order.{Tidy, ErrorLast}
use gridappsd_go.Stomp.Bridge.Runs.{endings, run-Tidy, run_marks}
use gridappsd_go.Stomp.{ConnSettings}
unfoldable use gridappsd_go.Common.{ℕ_discrete}
use gridappsd_go.Stomp.Gate.{waiting, returned}
use gridappsd_go.Stomp.Session
use gridappsd_go.Stomp.Session.{
  Session, new_session, add_sub, set_attempt, stopping, begin_attempt, end_attempt, ask_end,
  SessionReach, subscribes, unsubscribes, begins, ends, asks,
}
use gridappsd_go.Stomp.Session.Trace.{Legal}
use gridappsd_go.Stomp.Session.Order.{SessionReach-Legal}
use gridappsd_go.Stomp.Bridge.{forward}
use gridappsd_go.Stomp.Bridge.Slow
use gridappsd_go.Stomp.Bridge.Slow.{Slow, new_slow, take_message}
use gridappsd_go.Stomp.Bridge.Reference.{relay, run-relay}

abbrev send_only : ConnConfig
send_only = record {
  login = codes "user";
  passcode = codes "secret";
  heart_beat = pos 0;
  heart_beats = some (record { send = pos 5; recv = pos 0 });
}

abbrev short_bound : Dialer
short_bound = record { disconnect_bound = pos 1_000_000_000 }

abbrev refusing : DialCall → Result ℕ
refusing call = err (value (foreign 1))

dial_deadline_example :
    let calls = (dial refusing true (some 9) short_bound send_only).0 in
    (deadline_after none calls ≡ none) × (deadline_at_connect none calls ≡ some (some 9))
dial_deadline_example = dial_deadline refusing true (some 9) short_bound send_only

abbrev hello : StompMessage
hello = record { body = codes "hello"; destination = codes "/topic/a"; error = none }

abbrev broken_pipe : StompMessage
broken_pipe = record { body = []; destination = []; error = some (value (foreign 7)) }

-- Error 7 is a *gostomp.Error with a frame.
abbrev frames : ℕ → Option Bool
frames n = some true

abbrev schedule : List Select
schedule =
    received hello delivered
    ∷ received broken_pipe delivered
    ∷ received broken_pipe delivered
    ∷ source_closed
    ∷ []

run-Tidy_example :
    Tidy (run frames new_bridge schedule)
    × ErrorLast (run frames new_bridge schedule).out_open (run frames new_bridge schedule).sent
run-Tidy_example = run-Tidy frames schedule

run_marks_example : (run frames new_bridge schedule).marked ≡ endings frames schedule
run_marks_example = run_marks frames schedule

abbrev bounded_conn : ConnSettings
bounded_conn = record { stomp_conn = 1; bound = pos 8; close_after = pos 4 }

run-relay_example : (run frames new_bridge schedule).sent ≡ relay schedule
run-relay_example = run-relay frames schedule

abbrev no_frame : ℕ → Option Bool
no_frame n = none

abbrev unbounded : ConnSettings
unbounded = record { stomp_conn = 1; bound = pos 0; close_after = pos 0 }

-- A subscription whose unsubscribe is in go-stomp when Disconnect begins.
abbrev unsubscribing : Session
unsubscribing = begin_attempt no_frame unbounded (set_attempt (add_sub new_session) 0 stopping) 0

abbrev waits : Session
waits = record unsubscribing { conn = begin_disconnect unsubscribing.conn 0 }

waits-Reach : SessionReach no_frame unbounded waits
unfolding new_session new_conn add_sub set_attempt begin_attempt begin_unsubscribe ℕ_discrete
waits-Reach =
    Session.later
      (Session.later
        (Session.later (Session.later Session.start subscribes) (unsubscribes 0 (omega arith) refl))
        (begins 0 (omega arith) refl))
      (Session.disconnects 0 refl)

abbrev unsubscribed : Session
unsubscribed = end_attempt no_frame unbounded waits 0 (returned none)

unsubscribed-Reach : SessionReach no_frame unbounded unsubscribed
unfolding new_session new_conn add_sub set_attempt begin_attempt begin_unsubscribe ℕ_discrete
unsubscribed-Reach = Session.later waits-Reach (ends 0 (returned none) (omega arith) refl)

ended-Reach : SessionReach no_frame unbounded (ask_end no_frame unbounded unsubscribed 0)
unfolding new_session new_conn add_sub set_attempt begin_attempt begin_unsubscribe end_attempt
    end_unsubscribe begin_disconnect set_caller ℕ_discrete
ended-Reach = Session.later unsubscribed-Reach (asks 0 refl refl)

SessionReach-Legal_example : Legal unbounded (ask_end no_frame unbounded unsubscribed 0).events
SessionReach-Legal_example = SessionReach-Legal no_frame unbounded ended-Reach

-- A bridge with a message in its inner select and a full channel, as the context ends.
abbrev full_channel : Slow
full_channel = record {
  bridge = new_bridge;
  waiting = some hello;
  queue =
      (let m = forward hello in m ∷ m ∷ m ∷ m ∷ m ∷ m ∷ m ∷ m ∷ m ∷ m ∷ m ∷ m ∷ m ∷ m ∷ m ∷ m ∷ []);
  ended = true;
  taken = 17;
}

-- One message in the inner select.
abbrev offering : Slow
offering = take_message no_frame new_slow hello
