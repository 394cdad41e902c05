-- ===== src/Fake/Reply.antt =====
-- internal/transporttest/fake.go under internal/reqresp/reqresp.go: GetResponse on a fake connection,
-- as the tests of the client run it.
use gridappsd_go.Common.{
  ℕ, Bytes, Bytes-discrete, codes, true, List, [], ◌∷◌, ◌++◌, none, some, ◌≡◌, refl, ◌∙◌, ap, ◌⊎◌,
  inl, inr, arith,
}
use gridappsd_go.Common.Maps.{lookup, lookup-insert}
use gridappsd_go.GoError.{ok}
use gridappsd_go.Message.{header_reply_to}
use gridappsd_go.Topics.{normalize_destination}
use gridappsd_go.Auth.{Awaited}
use gridappsd_go.ReqResp.{
  ReplyCall, rand_read, subscribe, send, receive, unsubscribe, Answers, Request, bare_reply,
  get_response,
}
use gridappsd_go.ReqResp.Reply.{get_response_calls}
use gridappsd_go.Fake.{
  SendRecord, FakeConn, fake_send, notify, fake_subscribe, sub_for_dest, close_fake,
  unsubscribe_fake, take_fake, put_sub,
}
use gridappsd_go.Fake.Record.{after_take}

-- One call of GetResponse on a fake connection.
unfoldable pub perform : ReplyCall → FakeConn → FakeConn
perform rand_read c = c
perform (subscribe dest) c = (fake_subscribe dest c).0
perform (send dest kind body headers) c =
    fake_send (record { destination = dest; content_type = kind; body = body; headers = headers }) c
perform (receive i) c = put_sub c i (after_take (c.heap i) (take_fake (c.heap i)))
perform (unsubscribe i) c = put_sub c i (unsubscribe_fake (c.heap i))

unfoldable pub performs : List ReplyCall → FakeConn → FakeConn
performs [] c = c
performs (x ∷ xs) c = performs xs (perform x c)

-- What a fake connection answers, with the outcome of the wait.
abbrev pub fake_answers : FakeConn → Bytes → Awaited → Answers
fake_answers c nonce awaited = record {
  random = ok nonce;
  subscribed = (fake_subscribe (codes "/queue/" ++ bare_reply nonce) c).1;
  sent = none;
  awaited = awaited;
}

unsubscribed :
    (c : FakeConn) (i : ℕ)
    → ((put_sub c i (unsubscribe_fake (c.heap i))).heap i).unsub_called ≡ true
unfolding unsubscribe_fake close_fake
unsubscribed c i = ground arith

-- What Subscribe and Send leave on a fake connection.
asked :
    (c : FakeConn) (queue : Bytes) (r : SendRecord)
    → c.subscribe_err ≡ none
    → let d = fake_send r (fake_subscribe queue c).0 in
      (d.sends ≡ c.sends ++ r ∷ []) × (sub_for_dest d queue ≡ some c.made)
unfolding fake_subscribe fake_send notify sub_for_dest
asked c queue r e =
    (ground arith, ground (arith, lookup-insert Bytes-discrete queue queue c.made c.subs_by_dest))

-- The calls of GetResponse after the subscription is there.
performs_request :
    (c : FakeConn) (queue dest kind body : Bytes) (headers : List (Bytes × Bytes)) (i : ℕ)
    (waits : List ReplyCall)
    → (waits ≡ []) ⊎ (waits ≡ receive i ∷ [])
    → let r : SendRecord = record {
      destination = dest;
      content_type = kind;
      body = body;
      headers = headers;
    } in
      let d = fake_send r (fake_subscribe queue c).0 in
      let c' =
        performs
          (rand_read ∷ subscribe queue ∷ send dest kind body headers ∷ waits ++ unsubscribe i ∷ [])
          c in
      (c'.sends ≡ d.sends) × (c'.subs_by_dest ≡ d.subs_by_dest) × ((c'.heap i).unsub_called ≡ true)
unfolding performs perform
performs_request c queue dest kind body headers i waits (inl w) =
    let r : SendRecord = record {
      destination = dest;
      content_type = kind;
      body = body;
      headers = headers;
    } in
    let d = fake_send r (fake_subscribe queue c).0 in rw w (refl, refl, unsubscribed d i)
performs_request c queue dest kind body headers i waits (inr w) =
    let r : SendRecord = record {
      destination = dest;
      content_type = kind;
      body = body;
      headers = headers;
    } in
    let d = fake_send r (fake_subscribe queue c).0 in
    rw w (refl, refl, unsubscribed (perform (receive i) d) i)

-- Where Subscribe does not fail, GetResponse on a fake connection records one frame more, the
-- request to the normalized destination with the reply-to that its new sub was made for, and
-- leaves that sub unsubscribed, whatever comes of the wait.
pub get_response_fake :
    (c : FakeConn) (q : Request) (nonce : Bytes) (awaited : Awaited)
    → c.subscribe_err ≡ none
    → let c' = performs (get_response (fake_answers c nonce awaited) q).1 c in
      (headers : List (Bytes × Bytes)) × (c'.sends
        ≡ c.sends
          ++ record {
            destination = normalize_destination q.dest;
            content_type = q.content_type;
            body = q.body;
            headers = headers;
          }
            ∷ [])
      × (lookup Bytes-discrete header_reply_to headers ≡ some (bare_reply nonce))
      × (sub_for_dest c' (codes "/queue/" ++ bare_reply nonce) ≡ some c.made)
      × ((c'.heap c.made).unsub_called ≡ true)
unfolding sub_for_dest
get_response_fake c q nonce awaited e =
    let given : (fake_subscribe (codes "/queue/" ++ bare_reply nonce) c).1 ≡ ok c.made =
      unfold fake_subscribe in ground arith in
    let (headers, waits, calls, wait, stamped, kept) =
      get_response_calls (fake_answers c nonce awaited) q nonce c.made refl given in
    let queue = codes "/queue/" ++ bare_reply nonce in
    let norm_dest = normalize_destination q.dest in
    let (sends, subs, off) =
      performs_request c queue norm_dest q.content_type q.body headers c.made waits wait in
    let (recorded, found) = asked c queue _ e in
    rw calls (
      headers,
      sends ∙ recorded,
      stamped,
      ap (λ (m : List (Bytes × ℕ)). lookup Bytes-discrete queue m) subs ∙ found,
      off,
    )
