-- ===== src/Stomp.antt =====
-- internal/stomp/stomp.go: the dialer. go-stomp's Connect is outside the module: its answer is an
-- argument, and a connection that it makes is a number.
pub mod Gate
pub mod Bridge
pub mod Session
pub mod Handshake
pub mod Calls
pub mod Tests
use gridappsd_go.Common.{
  ℕ, ◌*◌, ◌^◌, Bytes, Bool, true, false, List, [], ◌∷◌, ◌++◌, Option, some, none, if◌then◌else◌,
}
use gridappsd_go.GoError.{GoError, errorf_w, Result, ok, err}
use gridappsd_go.Transport.{
  Duration, pos, is_zero, is_positive, half, HeartBeatIntervals, ConnConfig,
}

-- 10 * time.Second
abbrev pub default_heart_beat : Duration
default_heart_beat = pos 10_000_000_000

pub record Dialer : Type 0 where
  pub disconnect_bound : Duration

unfoldable pub with_disconnect_bound : Dialer → Duration → Dialer
with_disconnect_bound d bound = record d { disconnect_bound = bound }

-- The outgoing and the incoming interval of the CONNECT frame.
unfoldable pub resolve_heart_beat : ConnConfig → Duration × Duration
resolve_heart_beat cfg = elim cfg.heart_beats [
  | some intervals ↦ (intervals.send, intervals.recv)
  | none ↦
      let hb = if is_zero cfg.heart_beat then default_heart_beat else cfg.heart_beat in (hb, hb)
]

-- What Dial does to the connection that it is given. `set_deadline none` clears the deadline.
pub data DialCall : Type 0 where
  set_deadline : Option ℕ → DialCall
  connect :
      (login passcode : Bytes) (send recv : Duration) (receipt_timeout : Option Duration) → DialCall

-- conn as Dial makes it: go-stomp's connection, and the fields `bound` and `closeAfter`.
pub record ConnSettings : Type 0 where
  pub stomp_conn : ℕ
  pub bound : Duration
  pub close_after : Duration

unfoldable pub connect_call : Dialer → ConnConfig → DialCall
connect_call d cfg =
    let (send, recv) = resolve_heart_beat cfg in
    connect cfg.login cfg.passcode send recv
      (if is_positive d.disconnect_bound then some d.disconnect_bound else none)

-- `can_set` says that the connection takes deadlines, `deadline` is that of the context.
unfoldable pub dial_calls : Bool → Option ℕ → Dialer → ConnConfig → List DialCall
dial_calls true (some t) d cfg = set_deadline (some t) ∷ connect_call d cfg ∷ set_deadline none ∷ []
dial_calls true none d cfg = connect_call d cfg ∷ []
dial_calls false deadline d cfg = connect_call d cfg ∷ []

unfoldable pub dial_result : Dialer → Result ℕ → Result ConnSettings
dial_result d (ok c) =
    ok
      (record { stomp_conn = c; bound = d.disconnect_bound; close_after = half d.disconnect_bound })
dial_result d (err e) = err (errorf_w "stomp connect: %w" [] e)

-- Dial, with Connect's answer to each CONNECT.
unfoldable pub dial :
    (DialCall → Result ℕ)
    → Bool
    → Option ℕ
    → Dialer
    → ConnConfig
    → List DialCall × Result ConnSettings
dial stomp_connect can_set deadline d cfg =
    (dial_calls can_set deadline d cfg, dial_result d (stomp_connect (connect_call d cfg)))
