-- ===== src/Fake/Record.antt =====
-- internal/transporttest/fake.go: what a test reads back from a fake connection, after any calls.
use gridappsd_go.Common.{
  ℕ, Bytes, Bool, true, false, List, [], ◌∷◌, ◌++◌, none, some, ◌≡◌, refl, sym, ◌⊎◌, inl, inr, ◌∙◌,
  ap, arith, append-nil, append_assoc, if◌then◌else◌, ◌&&◌, Option-cases,
}
use gridappsd_go.GoError.{errorf, ok, err}
use gridappsd_go.Transport.{Msg}
use gridappsd_go.Fake.{
  SendRecord, FakeSub, FakeConn, fake_send, notify, fake_subscribe, fake_disconnect, last_send,
  last_record, close_fake, unsubscribe_fake, Pushed, pushed, blocks, panics, push_fake, Taken,
  taken, finished, waits, take_fake, put_sub,
}

-- The calls of a test and of the code that it drives. A Push that blocks or panics changes nothing.
pub data FakeCall : Type 0 where
  sends : SendRecord → FakeCall
  subscribes : (dest : Bytes) → FakeCall
  disconnects : FakeCall
  unsubscribes : (sub : ℕ) → FakeCall
  closes : (sub : ℕ) → FakeCall
  pushes : (sub : ℕ) → Msg → FakeCall
  takes : (sub : ℕ) → FakeCall

unfoldable pub after_push : FakeSub → Pushed → FakeSub
after_push s (pushed s') = s'
after_push s blocks = s
after_push s panics = s

unfoldable pub after_take : FakeSub → Taken → FakeSub
after_take s (taken m s') = s'
after_take s finished = s
after_take s waits = s

unfoldable pub fake_call : FakeCall → FakeConn → FakeConn
fake_call (sends r) c = fake_send r c
fake_call (subscribes dest) c = (fake_subscribe dest c).0
fake_call disconnects c = (fake_disconnect c).0
fake_call (unsubscribes i) c = put_sub c i (unsubscribe_fake (c.heap i))
fake_call (closes i) c = put_sub c i (close_fake (c.heap i))
fake_call (pushes i m) c = put_sub c i (after_push (c.heap i) (push_fake (c.heap i) m))
fake_call (takes i) c = put_sub c i (after_take (c.heap i) (take_fake (c.heap i)))

unfoldable pub fake_calls : List FakeCall → FakeConn → FakeConn
fake_calls [] c = c
fake_calls (x ∷ xs) c = fake_calls xs (fake_call x c)

-- The frames sent by a sequence of calls, and whether it disconnects.
abbrev pub sent_by : List FakeCall → List SendRecord
sent_by [] = []
sent_by (sends r ∷ xs) = r ∷ sent_by xs
sent_by (subscribes dest ∷ xs) = sent_by xs
sent_by (disconnects ∷ xs) = sent_by xs
sent_by (unsubscribes i ∷ xs) = sent_by xs
sent_by (closes i ∷ xs) = sent_by xs
sent_by (pushes i m ∷ xs) = sent_by xs
sent_by (takes i ∷ xs) = sent_by xs

fake_calls-sends :
    (xs : List FakeCall) (c : FakeConn) → (fake_calls xs c).sends ≡ c.sends ++ sent_by xs
unfolding fake_calls fake_call fake_send notify fake_disconnect
fake_calls-sends [] c = sym (append-nil c.sends)
fake_calls-sends (sends r ∷ xs) c =
    fake_calls-sends xs (fake_send r c)
    ∙ ap (λ rs. rs ++ sent_by xs) (ground arith)
    ∙ append_assoc c.sends (r ∷ []) (sent_by xs)
fake_calls-sends (subscribes dest ∷ xs) c =
    fake_calls-sends xs (fake_subscribe dest c).0
    ∙ ap (λ rs. rs ++ sent_by xs) (unfold fake_subscribe in ground arith)
fake_calls-sends (disconnects ∷ xs) c = fake_calls-sends xs (fake_disconnect c).0
fake_calls-sends (unsubscribes i ∷ xs) c = fake_calls-sends xs _
fake_calls-sends (closes i ∷ xs) c = fake_calls-sends xs _
fake_calls-sends (pushes i m ∷ xs) c = fake_calls-sends xs _
fake_calls-sends (takes i ∷ xs) c = fake_calls-sends xs _

last_record-cases :
    (rs : List SendRecord)
    → ((rs ≡ []) × (last_record rs ≡ none))
      ⊎ ((before : List SendRecord) × (r : SendRecord) × (rs ≡ before ++ r ∷ [])
          × (last_record rs ≡ some r))
unfolding last_record
last_record-cases [] = inl (refl, refl)
last_record-cases (r ∷ rs) = elim (last_record-cases rs) [
  | inl (e, h) ↦ inr ([], r, rw e refl, rw h refl)
  | inr (before, s, e, h) ↦ inr (r ∷ before, s, ap (◌∷◌ r) e, rw h refl)
]

abbrev pub any_sent : List SendRecord → Bool
any_sent [] = false
any_sent (r ∷ rs) = true

any_sent-snoc : (rs : List SendRecord) (r : SendRecord) → any_sent (rs ++ r ∷ []) ≡ true
any_sent-snoc [] r = refl
any_sent-snoc (s ∷ rs) r = refl

-- SendNotify is closed once, by the first Send.
pub record Notified (c : FakeConn) : Type 0 where
  pub closed_once : c.notify_closes ≡ (if c.send_notify && any_sent c.sends then 1 else 0)
  pub once_done : c.send_notify ≡ true → c.send_once ≡ any_sent c.sends

fake_send-Notified : (r : SendRecord) (c : FakeConn) → Notified c → Notified (fake_send r c)
unfolding fake_send notify
fake_send-Notified r c n = record {
  closed_once = ground (arith, n.closed_once, n.once_done, any_sent-snoc c.sends r);
  once_done = λ h. ground (arith, n.closed_once, n.once_done, any_sent-snoc c.sends r);
}

fake_subscribe-Notified :
    (dest : Bytes) (c : FakeConn) → Notified c → Notified (fake_subscribe dest c).0
unfolding fake_subscribe
fake_subscribe-Notified dest c n = elim (Option-cases c.subscribe_err) [
  | inl e ↦ rw (fake_subscribe, e) (record { closed_once = n.closed_once; once_done = n.once_done })
  | inr (x, e) ↦ rw (fake_subscribe, e) n
]

put_sub-Notified : (c : FakeConn) (i : ℕ) (s : FakeSub) → Notified c → Notified (put_sub c i s)
put_sub-Notified c i s n = record { closed_once = n.closed_once; once_done = n.once_done }

fake_calls-Notified : (xs : List FakeCall) (c : FakeConn) → Notified c → Notified (fake_calls xs c)
unfolding fake_calls fake_call
fake_calls-Notified [] c n = n
fake_calls-Notified (sends r ∷ xs) c n =
    fake_calls-Notified xs (fake_send r c) (fake_send-Notified r c n)
fake_calls-Notified (subscribes dest ∷ xs) c n =
    fake_calls-Notified xs (fake_subscribe dest c).0 (fake_subscribe-Notified dest c n)
fake_calls-Notified (disconnects ∷ xs) c n =
    fake_calls-Notified xs (fake_disconnect c).0
      (unfold fake_disconnect in record { closed_once = n.closed_once; once_done = n.once_done })
fake_calls-Notified (unsubscribes i ∷ xs) c n = fake_calls-Notified xs _ (put_sub-Notified c i _ n)
fake_calls-Notified (closes i ∷ xs) c n = fake_calls-Notified xs _ (put_sub-Notified c i _ n)
fake_calls-Notified (pushes i m ∷ xs) c n = fake_calls-Notified xs _ (put_sub-Notified c i _ n)
fake_calls-Notified (takes i ∷ xs) c n = fake_calls-Notified xs _ (put_sub-Notified c i _ n)

-- After any calls on a connection that has recorded none: AllSends gives every frame sent, in order;
-- LastSend the last of them, or an error if there is none; and SendNotify, where there is one, has
-- been closed once if anything was sent.
pub fake_calls_record :
    (xs : List FakeCall) (c : FakeConn)
    → c.sends ≡ []
    → Notified c
    → let c' = fake_calls xs c in
      (c'.sends ≡ sent_by xs)
      × (((sent_by xs ≡ []) × (last_send c' ≡ err (errorf "no sends recorded" [])))
          ⊎ ((before : List SendRecord) × (r : SendRecord) × (sent_by xs ≡ before ++ r ∷ [])
              × (last_send c' ≡ ok r)))
      × Notified c'
unfolding last_send
fake_calls_record xs c e n =
    let all : (fake_calls xs c).sends ≡ sent_by xs =
      fake_calls-sends xs c ∙ ap (λ rs. rs ++ sent_by xs) e in
    (
      all,
      elim (last_record-cases (fake_calls xs c).sends) [
        | inl (h, q) ↦ inl (sym all ∙ h, rw (last_send, q) refl)
        | inr (before, r, h, q) ↦ inr (before, r, sym all ∙ h, rw (last_send, q) refl)
      ],
      fake_calls-Notified xs c n,
    )
