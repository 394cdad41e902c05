-- ===== src/ReqResp/Reply.antt =====
-- internal/reqresp/reqresp.go: what GetResponse asks of the connection, and what its reply is.
use gridappsd_go.Common.{
  ℕ, Bytes, Bytes-discrete, codes, List, [], ◌∷◌, ◌++◌, some, none, ◌≡◌, ◌≢◌, refl, sym, ◌⊎◌, ◌↔◌,
  inl, inr, arith, Option-cases,
}
use gridappsd_go.Common.Maps.{lookup, lookup-insert}
use gridappsd_go.GoError.{ok, Result-cases, ok≢err, ok_injective}
use gridappsd_go.Message.{header_reply_to}
use gridappsd_go.Topics.{normalize_destination}
use gridappsd_go.Transport.{Msg}
use gridappsd_go.Auth.{Awaited, arrived, channel_closed, context_done}
use gridappsd_go.ReqResp.{
  ReplyCall, rand_read, subscribe, send, receive, unsubscribe, Answers, Request, bare_reply,
  request_headers, read_reply, send_and_wait, subscribe_and_send, get_response,
}

lookup-request_headers :
    (base : List (Bytes × Bytes)) (bare : Bytes)
    → (lookup Bytes-discrete header_reply_to (request_headers base bare) ≡ some bare)
      × ((k : Bytes)
          → k ≢ header_reply_to
          → lookup Bytes-discrete k (request_headers base bare) ≡ lookup Bytes-discrete k base)
unfolding request_headers
lookup-request_headers base bare = (
  ground (arith, lookup-insert Bytes-discrete header_reply_to header_reply_to bare base),
  λ k h. ground (arith, lookup-insert Bytes-discrete header_reply_to k bare base),
)

-- Once GetResponse has its subscription, it has subscribed to the queue of a name, sends to the
-- normalized destination with that name as reply-to and the caller's other headers unchanged, and
-- unsubscribes at the end, whatever the send and the wait give.
pub get_response_calls :
    (a : Answers) (q : Request) (nonce : Bytes) (sub : ℕ)
    → a.random ≡ ok nonce
    → a.subscribed ≡ ok sub
    → (headers : List (Bytes × Bytes)) × (waits : List ReplyCall) × ((get_response a q).1
        ≡ rand_read
            ∷ subscribe (codes "/queue/" ++ bare_reply nonce)
            ∷ send (normalize_destination q.dest) q.content_type q.body headers
            ∷ waits
          ++ unsubscribe sub ∷ [])
      × ((waits ≡ []) ⊎ (waits ≡ receive sub ∷ []))
      × (lookup Bytes-discrete header_reply_to headers ≡ some (bare_reply nonce))
      × ((k : Bytes)
          → k ≢ header_reply_to
          → lookup Bytes-discrete k headers ≡ lookup Bytes-discrete k q.base_headers)
unfolding get_response subscribe_and_send send_and_wait
get_response_calls a q nonce sub er es =
    let bare = bare_reply nonce in
    let stamped = lookup-request_headers q.base_headers bare in
    elim (Option-cases a.sent) [
      | inl e ↦
          rw (get_response, er, subscribe_and_send, es, send_and_wait, e)
            (
              request_headers q.base_headers bare,
              receive sub ∷ [],
              refl,
              inr refl,
              stamped.0,
              stamped.1,
            )
      | inr (x, e) ↦
          rw (get_response, er, subscribe_and_send, es, send_and_wait, e)
            (request_headers q.base_headers bare, [], refl, inl refl, stamped.0, stamped.1)
    ]

read_reply-ok :
    (w : Awaited) (body : Bytes)
    → read_reply w ≡ ok body
    → (m : Msg) × (w ≡ arrived m) × (m.error ≡ none) × (m.body ≡ body)
unfolding read_reply
read_reply-ok channel_closed body h = absurd (ok≢err (sym h))
read_reply-ok (context_done e) body h = absurd (ok≢err (sym h))
read_reply-ok (arrived m) body h = elim (Option-cases m.error) [
  | inl e ↦ (m, refl, e, ok_injective (rw (read_reply, e) at h))
  | inr (x, e) ↦ absurd (ok≢err (sym (rw (read_reply, e) at h)))
]

-- A reply that GetResponse returns is the body of the message without an error that came first on
-- the reply queue, after every step before the wait succeeded; and any such message's body is
-- returned.
pub get_response_ok :
    (a : Answers) (q : Request) (body : Bytes)
    → ((get_response a q).0 ≡ ok body) ↔ (
        (nonce : Bytes) × (sub : ℕ) × (m : Msg) × (a.random ≡ ok nonce)
        × (a.subscribed ≡ ok sub)
        × (a.sent ≡ none)
        × (a.awaited ≡ arrived m)
        × (m.error ≡ none)
        × (m.body ≡ body))
unfolding get_response subscribe_and_send send_and_wait read_reply
get_response_ok a q body = (
  λ h. elim (Result-cases a.random) [
    | inl (x, e) ↦ absurd (ok≢err (sym (rw (get_response, e) at h)))
    | inr (nonce, e) ↦ elim (Result-cases a.subscribed) [
      | inl (x, e1) ↦ absurd (ok≢err (sym (rw (get_response, e, subscribe_and_send, e1) at h)))
      | inr (sub, e1) ↦ elim (Option-cases a.sent) [
        | inr (x, e2) ↦
            absurd
              (ok≢err (sym (rw (get_response, e, subscribe_and_send, e1, send_and_wait, e2) at h)))
        | inl e2 ↦
            let (m, e3, e4, e5) =
              read_reply-ok a.awaited body
                (rw (get_response, e, subscribe_and_send, e1, send_and_wait, e2) at h) in
            (nonce, sub, m, e, e1, e2, e3, e4, e5)
      ]
    ]
  ],
  λ (nonce, sub, m, e, e1, e2, e3, e4, e5).
      rw (get_response, e, subscribe_and_send, e1, send_and_wait, e2, e3, read_reply, e4, e5),
)
