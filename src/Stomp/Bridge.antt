-- ===== src/Stomp/Bridge.antt =====
-- internal/stomp/stomp.go: sub. Its goroutine bridge is run by a schedule, the outcomes of its
-- selects in order, so that a send to s.ch stands where it got through; Unsubscribe is run by the
-- outcomes of its attempts.
pub mod Order
pub mod Once
pub mod Runs
pub mod Reference
pub mod Slow
use gridappsd_go.Common.{
  ℕ, suc, ◌+◌, Bytes, Bool, true, false, List, [], ◌∷◌, ◌++◌, Option, some, none, if◌then◌else◌,
}
use gridappsd_go.GoError.{
  ErrorId, subscription_closed, handshake_timeout, disconnected, canceled, deadline_exceeded,
  receipt_timeout, foreign, GoError, value, runtime_error, errorf, errorf_w, errorf_ww,
  bounded_error,
}
use gridappsd_go.Transport.{Msg, error_msg}
use gridappsd_go.Stomp.Gate.{Outcome, finished, repanicked}

-- gostomp.Message.
pub record StompMessage : Type 0 where
  pub body : Bytes
  pub destination : Bytes
  pub error : Option GoError

-- errors.As for a *gostomp.Error: whether the first one in the tree has a frame. `stomp_error`
-- says so of each error of other packages.
unfoldable pub find_frame : (ℕ → Option Bool) → GoError → Option Bool
find_frame stomp_error (value (foreign n)) = stomp_error n
find_frame stomp_error (value subscription_closed) = none
find_frame stomp_error (value handshake_timeout) = none
find_frame stomp_error (value disconnected) = none
find_frame stomp_error (value canceled) = none
find_frame stomp_error (value deadline_exceeded) = none
find_frame stomp_error (value receipt_timeout) = none
find_frame stomp_error (runtime_error n) = none
find_frame stomp_error (errorf f args) = none
find_frame stomp_error (errorf_w f args e) = find_frame stomp_error e
find_frame stomp_error (errorf_ww f args e e') = elim (find_frame stomp_error e) [
  | some b ↦ some b
  | none ↦ find_frame stomp_error e'
]
find_frame stomp_error (bounded_error e) = find_frame stomp_error e

unfoldable pub ends_conn : (ℕ → Option Bool) → Option GoError → Bool
ends_conn stomp_error none = false
ends_conn stomp_error (some e) = elim (find_frame stomp_error e) [ some b ↦ b | none ↦ false ]

-- The Msg that is forwarded.
unfoldable pub forward : StompMessage → Msg
forward m = elim m.error [
  | none ↦ record { body = m.body; destination = m.destination; error = none }
  | some e ↦ error_msg e
]

-- The inner select, and the outer one; `cancelled` is a receive from `done`, `halted` one from
-- `stop`.
pub data Inner : Type 0 where
  delivered cancelled_inner halted_inner : Inner

pub data Select : Type 0 where
  received : StompMessage → Inner → Select
  source_closed cancelled halted : Select

-- `out_open` is `out != nil`; `sent` and `closes` are what has been done to s.ch; `marked` counts
-- the calls of markEnded, `unsubscribing` the goroutines that call Unsubscribe.
pub record Bridge : Type 0 where
  pub out_open : Bool
  pub sent : List Msg
  pub closes : ℕ
  pub marked : ℕ
  pub unsubscribing : ℕ
  pub exited : Bool

unfoldable pub new_bridge : Bridge
new_bridge = record {
  out_open = true;
  sent = [];
  closes = 0;
  marked = 0;
  unsubscribing = 0;
  exited = false;
}

unfoldable pub end_out : Bridge → Bridge
end_out b = if b.out_open then record b { out_open = false; closes = suc b.closes } else b

unfoldable pub unsubscribe_on_ctx : Bridge → Bridge
unsubscribe_on_ctx b = end_out (record b { unsubscribing = suc b.unsubscribing })

unfoldable pub send_out : Bridge → Msg → Bridge
send_out b m =
    let b' = record b { sent = b.sent ++ m ∷ [] } in
    elim m.error [ none ↦ b' | some e ↦ end_out b' ]

unfoldable pub on_message : Bridge → Msg → Inner → Bridge
on_message b m delivered = send_out b m
on_message b m cancelled_inner = unsubscribe_on_ctx b
on_message b m halted_inner = end_out b

module _ (stomp_error : ℕ → Option Bool) where
  unfoldable pub mark_if_ended : Bridge → StompMessage → Bridge
  mark_if_ended b m =
      if ends_conn stomp_error m.error then record b { marked = suc b.marked } else b

  -- One round. With `out` nil the channels `done` and `stop` are nil too, and are never received
  -- from.
  unfoldable pub round : Bridge → Select → Bridge
  round b (received m inner) =
      let b' = mark_if_ended b m in if b.out_open then on_message b' (forward m) inner else b'
  round b source_closed = end_out (record b { exited = true })
  round b cancelled = if b.out_open then unsubscribe_on_ctx b else b
  round b halted = end_out b

  -- The loop, over a schedule; it ends when go-stomp closes the source.
  unfoldable pub run : Bridge → List Select → Bridge
  run b [] = b
  run b (e ∷ es) = let rest = run (round b e) es in if b.exited then b else rest
