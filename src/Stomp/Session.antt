-- ===== src/Stomp/Session.antt =====
-- internal/stomp/stomp.go: a connection with all of its subscriptions. The goroutines of the
-- subscriptions, the calls of Unsubscribe and those of Disconnect take their steps in any order.
pub mod Trace
pub mod Running
pub mod Told
pub mod Order
use gridappsd_go.Common.{
  ℕ, suc, ◌<◌, Bool, true, false, List, [], ◌∷◌, Option, none, some, if◌then◌else◌, ◌≡◌, ◌≢◌, ◌⊎◌,
}
use gridappsd_go.Common.Families.{update}
use gridappsd_go.GoError.{GoError, value, disconnected}
use gridappsd_go.Stomp.{ConnSettings}
use gridappsd_go.Stomp.Gate.{
  Conn, DisconnectPhase, idle, waiting, closing_transport, graceful, new_conn, set_caller,
  mark_ended, begin_unsubscribe, end_unsubscribe, begin_disconnect, choose_disconnect, StompOutcome,
  Outcome, finished, recovered,
}
use gridappsd_go.Stomp.Bridge.{
  StompMessage, ends_conn, Select, received, source_closed, cancelled, halted, Bridge, new_bridge,
  round,
}
use gridappsd_go.Stomp.Calls.{EndCall, finish_disconnect}

-- Where the one attempt of Unsubscribe stands: before once.Do, after close(s.stop), in go-stomp's
-- Unsubscribe, or over.
pub data Attempt : Type 0 where
  untouched stopping attempting : Attempt
  over : Outcome → Attempt

pub record SubState : Type 0 where
  pub bridge : Bridge
  pub attempt : Attempt

-- What go-stomp is asked and what it tells: an unsubscribe begins and returns, an ERROR frame
-- arrives that ends the connection, and the calls of one Disconnect are made.
pub data Event : Type 0 where
  unsubscribe_begun unsubscribe_returned frame_seen : ℕ → Event
  end_asked : List EndCall → Event

-- The subscriptions are numbered in the order of Subscribe; the newest event is first.
pub record Session : Type 0 where
  pub conn : Conn
  pub subs : ℕ → SubState
  pub spawned : ℕ
  pub events : List Event

unfoldable pub new_session : Session
new_session = record {
  conn = new_conn;
  subs = λ _. record { bridge = new_bridge; attempt = untouched };
  spawned = 0;
  events = [];
}

unfoldable pub add_sub : Session → Session
add_sub s = record s {
  subs = update s.subs s.spawned (record { bridge = new_bridge; attempt = untouched });
  spawned = suc s.spawned;
}

unfoldable pub set_attempt : Session → ℕ → Attempt → Session
set_attempt s i a = record s {
  subs = update s.subs i (record { bridge = (s.subs i).bridge; attempt = a });
}

-- A receive from `stop`, which only Unsubscribe closes. The inner select of a round goes with the
-- receive before it, so it is free to end on what comes later.
unfoldable pub needs_stop : Select → Bool
needs_stop halted = true
needs_stop (received m inner) = false
needs_stop source_closed = false
needs_stop cancelled = false

module _ (stomp_error : ℕ → Option Bool) (settings : ConnSettings) where
  -- Whether a round of a bridge tells the connection of its end.
  unfoldable pub sees_end : Select → Bool
  sees_end (received m inner) = ends_conn stomp_error m.error
  sees_end source_closed = false
  sees_end cancelled = false
  sees_end halted = false

  -- A round of the bridge of subscription `i`, with its markEnded.
  unfoldable pub bridge_round : Session → ℕ → Select → Session
  bridge_round s i e =
      let sub : SubState = record (s.subs i) { bridge = round stomp_error (s.subs i).bridge e } in
      let moved = record s { subs = update s.subs i sub } in
      if sees_end e
      then record moved { conn = mark_ended s.conn; events = frame_seen i ∷ s.events }
      else moved

  -- s.unsubscribe, up to go-stomp's Unsubscribe.
  unfoldable pub begin_attempt : Session → ℕ → Session
  begin_attempt s i =
      let (conn, begun) = begin_unsubscribe s.conn in
      if begun
      then record (set_attempt s i attempting) {
        conn = conn;
        events = unsubscribe_begun i ∷ s.events;
      }
      else set_attempt s i (over (finished (some (value disconnected))))

  -- The rest of s.unsubscribe, with what go-stomp's Unsubscribe did.
  unfoldable pub end_attempt : Session → ℕ → StompOutcome → Session
  end_attempt s i outcome = record (set_attempt s i (over (recovered outcome))) {
    conn = end_unsubscribe s.conn;
    events = unsubscribe_returned i ∷ s.events;
  }

  -- Disconnect after unsubs.Wait, up to the answer of go-stomp.
  unfoldable pub ask_end : Session → ℕ → Session
  ask_end s j = record s {
    conn = choose_disconnect s.conn j;
    events = end_asked (finish_disconnect settings s.conn.ended false none none).0 ∷ s.events;
  }

  pub data SessionStep (s : Session) : Session → Type 0 where
    subscribes : SessionStep s (add_sub s)
    rounds :
        (i : ℕ) (e : Select)
        → i < s.spawned
        → (s.subs i).bridge.exited ≡ false
        → (needs_stop e ≡ true → (s.subs i).attempt ≢ untouched)
        → SessionStep s (bridge_round s i e)
    unsubscribes :
        (i : ℕ)
        → i < s.spawned
        → (s.subs i).attempt ≡ untouched
        → SessionStep s (set_attempt s i stopping)
    begins :
        (i : ℕ) → i < s.spawned → (s.subs i).attempt ≡ stopping → SessionStep s (begin_attempt s i)
    ends :
        (i : ℕ) (outcome : StompOutcome)
        → i < s.spawned
        → (s.subs i).attempt ≡ attempting
        → SessionStep s (end_attempt s i outcome)
    disconnects :
        (j : ℕ)
        → s.conn.callers j ≡ idle
        → SessionStep s (record s { conn = begin_disconnect s.conn j })
    asks : (j : ℕ) → s.conn.callers j ≡ waiting → s.conn.unsubs ≡ 0 → SessionStep s (ask_end s j)
    returns :
        (j : ℕ)
        → (s.conn.callers j ≡ closing_transport) ⊎ (s.conn.callers j ≡ graceful)
        → SessionStep s (record s { conn = set_caller s.conn j idle })

  pub data SessionReach : Session → Type 0 where
    start : SessionReach new_session
    later : {s u : Session} → SessionReach s → SessionStep s u → SessionReach u
