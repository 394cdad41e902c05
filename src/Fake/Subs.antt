-- ===== src/Fake/Subs.antt =====
-- internal/transporttest/fake.go: a FakeSub as the channel that a reader sees.
use gridappsd_go.Common.{
  ◌≤◌, true, List, [], ◌∷◌, ◌++◌, ◌≡◌, refl, sym, ◌∙◌, ap, arith, append_assoc, if◌then◌else◌,
  length, length-append, if_rule,
}
use gridappsd_go.Transport.{Msg}
use gridappsd_go.Fake.{
  FakeSub, close_fake, unsubscribe_fake, Pushed, pushed, blocks, panics, push_fake, Taken, taken,
  finished, waits, take_from, take_fake, chan_cap,
}

pub data SubCall : Type 0 where
  push : Msg → SubCall
  take : SubCall
  unsubscribe : SubCall
  close : SubCall

-- Calls on a sub with the messages that its channel has accepted and those that were received. A
-- Push on a full or closed channel does not return, and leaves the channel as it is.
pub record SubRun : Type 0 where
  pub accepted : List Msg
  pub received : List Msg
  pub sub : FakeSub

unfoldable pub push_run : SubRun → Msg → Pushed → SubRun
push_run r m (pushed s) = record r { accepted = r.accepted ++ m ∷ []; sub = s }
push_run r m blocks = r
push_run r m panics = r

unfoldable pub take_run : SubRun → Taken → SubRun
take_run r (taken m s) = record r { received = r.received ++ m ∷ []; sub = s }
take_run r finished = r
take_run r waits = r

unfoldable pub sub_call : SubCall → SubRun → SubRun
unfolding push_run take_run
sub_call (push m) r = push_run r m (push_fake r.sub m)
sub_call take r = take_run r (take_fake r.sub)
sub_call unsubscribe r = record r { sub = unsubscribe_fake r.sub }
sub_call close r = record r { sub = close_fake r.sub }

unfoldable pub sub_calls : List SubCall → SubRun → SubRun
sub_calls [] r = r
sub_calls (x ∷ xs) r = sub_calls xs (sub_call x r)

-- The channel is closed once at most, and if Unsubscribe was called; it is within its capacity; and
-- what it holds is what it accepted and was not received yet, in order.
pub record Flows (r : SubRun) : Type 0 where
  pub closed_once : r.sub.closes ≡ (if r.sub.close_once then 1 else 0)
  pub unsub_closes : r.sub.unsub_called ≡ true → r.sub.close_once ≡ true
  pub room : length r.sub.queue ≤ chan_cap
  pub in_order : r.accepted ≡ r.received ++ r.sub.queue

push-Flows : (m : Msg) (r : SubRun) → Flows r → Flows (sub_call (push m) r)
unfolding sub_call push_fake
push-Flows m r f =
    ground (arith, length-append r.sub.queue (m ∷ []), append_assoc r.received r.sub.queue (m ∷ []))

take_from-Flows :
    (r : SubRun) (q : List Msg) → r.sub.queue ≡ q → Flows r → Flows (take_run r (take_from r.sub q))
unfolding take_from take_run
take_from-Flows r [] e f =
    if_rule (λ (t : Taken). Flows (take_run r t)) r.sub.close_once (λ _. f) (λ _. f)
take_from-Flows r (m ∷ q) e f = record {
  closed_once = f.closed_once;
  unsub_closes = f.unsub_closes;
  room = ground (arith, f.room);
  in_order =
      f.in_order
      ∙ ap (λ (p : List Msg). r.received ++ p) e
      ∙ sym (append_assoc r.received (m ∷ []) q);
}

take-Flows : (r : SubRun) → Flows r → Flows (sub_call take r)
unfolding sub_call take_fake
take-Flows r f = take_from-Flows r r.sub.queue refl f

close-Flows : (r : SubRun) → Flows r → Flows (sub_call close r)
unfolding sub_call close_fake
close-Flows r f = ground arith

unsubscribe-Flows : (r : SubRun) → Flows r → Flows (sub_call unsubscribe r)
unfolding sub_call unsubscribe_fake close_fake
unsubscribe-Flows r f = ground arith

-- Whatever a test and a reader do to a sub, its channel is closed once at most, and is closed if
-- Unsubscribe was called; it holds 64 messages at most; and what was received from it is what it
-- accepted, in order, up to what it still holds.
pub sub_calls-Flows : (xs : List SubCall) (r : SubRun) → Flows r → Flows (sub_calls xs r)
unfolding sub_calls
sub_calls-Flows [] r f = f
sub_calls-Flows (push m ∷ xs) r f = sub_calls-Flows xs (sub_call (push m) r) (push-Flows m r f)
sub_calls-Flows (take ∷ xs) r f = sub_calls-Flows xs (sub_call take r) (take-Flows r f)
sub_calls-Flows (unsubscribe ∷ xs) r f =
    sub_calls-Flows xs (sub_call unsubscribe r) (unsubscribe-Flows r f)
sub_calls-Flows (close ∷ xs) r f = sub_calls-Flows xs (sub_call close r) (close-Flows r f)
