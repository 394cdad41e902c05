-- ===== src/Fake.antt =====
-- internal/transporttest/fake.go: FakeConn and FakeSub. A *FakeSub is a number, and the subs are kept
-- in the connection as in a heap. A slice or map that the code copies is a value here. Each method is
-- one section under its lock.
pub mod Record
pub mod Subs
pub mod Reply
pub mod Tests
use gridappsd_go.Common.{
  ℕ, zero, suc, Bytes, Bytes-discrete, Bool, true, false, List, [], ◌∷◌, ◌++◌, Option, none, some,
  length, ltb, if◌then◌else◌,
}
use gridappsd_go.Common.Maps.{lookup, insert}
use gridappsd_go.GoError.{GoError, errorf, Result, ok, err}
use gridappsd_go.Transport.{Msg}
use gridappsd_go.Common.Families.{update}

pub record SendRecord : Type 0 where
  pub destination : Bytes
  pub content_type : Bytes
  pub body : Bytes
  pub headers : List (Bytes × Bytes)

-- `queue` is what the channel holds, `close_once` says that closeOnce has run, `closes` counts what
-- has been done to the channel.
pub record FakeSub : Type 0 where
  pub dest : Bytes
  pub queue : List Msg
  pub close_once : Bool
  pub closes : ℕ
  pub unsub_called : Bool

-- `send_notify` says that the channel of that name is not nil, and `notify_closes` counts its closes.
pub record FakeConn : Type 0 where
  pub sends : List SendRecord
  pub subs : List ℕ
  pub subs_by_dest : List (Bytes × ℕ)
  pub disconnected : Bool
  pub disconnect_err : Option GoError
  pub subscribe_err : Option GoError
  pub send_notify : Bool
  pub send_once : Bool
  pub notify_closes : ℕ
  pub heap : ℕ → FakeSub
  pub made : ℕ

abbrev pub chan_cap : ℕ
chan_cap = 64

unfoldable pub new_fake_sub : Bytes → FakeSub
new_fake_sub dest = record {
  dest = dest;
  queue = [];
  close_once = false;
  closes = 0;
  unsub_called = false;
}

unfoldable pub new_fake_conn : FakeConn
new_fake_conn = record {
  sends = [];
  subs = [];
  subs_by_dest = [];
  disconnected = false;
  disconnect_err = none;
  subscribe_err = none;
  send_notify = false;
  send_once = false;
  notify_closes = 0;
  heap = λ i. new_fake_sub [];
  made = 0;
}

-- What Send does after its section.
unfoldable pub notify : FakeConn → FakeConn
notify c =
    if c.send_notify
    then if c.send_once
      then c
      else record c { send_once = true; notify_closes = suc c.notify_closes }
    else c

unfoldable pub fake_send : SendRecord → FakeConn → FakeConn
unfolding notify
fake_send r c = notify (record c { sends = c.sends ++ r ∷ [] })

unfoldable pub fake_subscribe : Bytes → FakeConn → FakeConn × Result ℕ
fake_subscribe dest c = elim c.subscribe_err [
  | some e ↦ (c, err e)
  | none ↦ (
    record c {
      subs = c.subs ++ c.made ∷ [];
      subs_by_dest = insert Bytes-discrete dest c.made c.subs_by_dest;
      heap = update c.heap c.made (new_fake_sub dest);
      made = suc c.made;
    },
    ok c.made,
  )
]

unfoldable pub fake_disconnect : FakeConn → FakeConn × Option GoError
fake_disconnect c = (record c { disconnected = true }, c.disconnect_err)

unfoldable pub sub_for_dest : FakeConn → Bytes → Option ℕ
sub_for_dest c dest = lookup Bytes-discrete dest c.subs_by_dest

unfoldable pub last_record : List SendRecord → Option SendRecord
last_record [] = none
last_record (r ∷ rs) = elim (last_record rs) [ none ↦ some r | some s ↦ some s ]

unfoldable pub last_send : FakeConn → Result SendRecord
last_send c = elim (last_record c.sends) [
  | none ↦ err (errorf "no sends recorded" [])
  | some r ↦ ok r
]

-- closeOnce.Do of close(ch)
unfoldable pub close_fake : FakeSub → FakeSub
close_fake s = if s.close_once then s else record s { close_once = true; closes = suc s.closes }

unfoldable pub unsubscribe_fake : FakeSub → FakeSub
unfolding close_fake
unsubscribe_fake s = close_fake (record s { unsub_called = true })

-- A send on the channel: a full one blocks the caller, a closed one panics.
pub data Pushed : Type 0 where
  pushed : FakeSub → Pushed
  blocks : Pushed
  panics : Pushed

unfoldable pub push_fake : FakeSub → Msg → Pushed
push_fake s m =
    if s.close_once
    then panics
    else if ltb (length s.queue) chan_cap
    then pushed (record s { queue = s.queue ++ m ∷ [] })
    else blocks

-- A receive from the channel: a message, its end, or none yet.
pub data Taken : Type 0 where
  taken : Msg → FakeSub → Taken
  finished : Taken
  waits : Taken

unfoldable pub take_from : FakeSub → List Msg → Taken
take_from s (m ∷ q) = taken m (record s { queue = q })
take_from s [] = if s.close_once then finished else waits

unfoldable pub take_fake : FakeSub → Taken
unfolding take_from
take_fake s = take_from s s.queue

abbrev pub put_sub : FakeConn → ℕ → FakeSub → FakeConn
put_sub c i s = record c { heap = update c.heap i s }
