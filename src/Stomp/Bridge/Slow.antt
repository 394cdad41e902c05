-- ===== src/Stomp/Bridge/Slow.antt =====
-- internal/stomp/stomp.go: bridge over a subscriber that may be slow. A message that was received
-- waits in the inner select until s.ch has room, the context is done or Unsubscribe has begun.
pub mod Progress
pub mod Schedules
use gridappsd_go.Common.{
  ℕ, suc, ◌+◌, ◌≤◌, ◌<◌, Bool, true, false, List, [], ◌∷◌, ◌++◌, Option, none, some, if◌then◌else◌,
  ◌≡◌, ◌≢◌, refl, sym, ap, ◌∙◌, ◌⊎◌, inl, inr, arith, length, Option-cases, Bool-cases,
}
use gridappsd_go.Transport.{Msg}
use gridappsd_go.Stomp.Bridge.{
  StompMessage, forward, Inner, delivered, cancelled_inner, halted_inner, Bridge, new_bridge,
  source_closed, cancelled, halted, end_out, unsubscribe_on_ctx, send_out, on_message,
  mark_if_ended, round, Select, received, run,
}

abbrev pub sub_chan_buf : ℕ
sub_chan_buf = 16

-- The goroutine, the message in its inner select, the messages in s.ch, whether the context is done
-- or `stop` is closed, and how many messages were received from go-stomp.
pub record Slow : Type 0 where
  pub bridge : Bridge
  pub waiting : Option StompMessage
  pub queue : List Msg
  pub ended : Bool
  pub taken : ℕ

unfoldable pub new_slow : Slow
new_slow = record { bridge = new_bridge; waiting = none; queue = []; ended = false; taken = 0 }

-- The end of the inner select.
unfoldable pub settle_inner : Slow → StompMessage → Inner → Slow
settle_inner c m inner = record c { bridge = on_message c.bridge (forward m) inner; waiting = none }

module _ (stomp_error : ℕ → Option Bool) where
  -- A receive from go-stomp, up to the inner select.
  unfoldable pub take_message : Slow → StompMessage → Slow
  take_message c m = record c {
    bridge = mark_if_ended stomp_error c.bridge m;
    waiting = if c.bridge.out_open then some m else none;
    taken = suc c.taken;
  }

  -- The steps of the goroutine. Where the context is done and `stop` is closed, either may be chosen.
  pub data SlowStep (c : Slow) : Slow → Type 0 where
    takes :
        (m : StompMessage)
        → c.waiting ≡ none
        → c.bridge.exited ≡ false
        → SlowStep c (take_message c m)
    sends :
        (m : StompMessage)
        → c.waiting ≡ some m
        → length c.queue < sub_chan_buf
        → SlowStep c (record (settle_inner c m delivered) { queue = c.queue ++ forward m ∷ [] })
    gives_up :
        (m : StompMessage) (inner : Inner)
        → c.waiting ≡ some m
        → c.ended ≡ true
        → inner ≢ delivered
        → SlowStep c (settle_inner c m inner)
    cancels :
        c.waiting ≡ none
        → c.bridge.exited ≡ false
        → c.ended ≡ true
        → SlowStep c (record c { bridge = round stomp_error c.bridge cancelled })
    halts :
        c.waiting ≡ none
        → c.bridge.exited ≡ false
        → c.ended ≡ true
        → SlowStep c (record c { bridge = round stomp_error c.bridge halted })
    leaves :
        c.waiting ≡ none
        → c.bridge.exited ≡ false
        → SlowStep c (record c { bridge = round stomp_error c.bridge source_closed })

  pub data SlowSteps (c : Slow) : ℕ → Slow → Type 0 where
    here : SlowSteps c 0 c
    next : {n : ℕ} {d e : Slow} → SlowSteps c n d → SlowStep d e → SlowSteps c (suc n) e

  -- The steps of the goroutine among those of others: the subscriber reads, and the context ends or
  -- Unsubscribe begins.
  pub data SlowReach : Slow → Type 0 where
    start : SlowReach new_slow
    own : {c d : Slow} → SlowReach c → SlowStep c d → SlowReach d
    reads :
        {c : Slow} (m : Msg) (q : List Msg)
        → SlowReach c
        → c.queue ≡ m ∷ q
        → SlowReach (record c { queue = q })
    ends : {c : Slow} → SlowReach c → SlowReach (record c { ended = true })
