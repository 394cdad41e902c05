-- ===== src/ReqResp.antt =====
-- internal/reqresp/reqresp.go: GetResponse, against any answers of the transport. Each call is made
-- once at most, so the answers are values.
pub mod Reply
pub mod Tests
use gridappsd_go.Common.{ℕ, Bytes, Bytes-discrete, codes, List, [], ◌∷◌, ◌++◌, Option, some, none}
use gridappsd_go.Common.Maps.{insert}
use gridappsd_go.GoError.{GoError, errorf, errorf_w, Result, ok, err}
use gridappsd_go.Message.{header_reply_to}
use gridappsd_go.Topics.{normalize_destination}
use gridappsd_go.Transport.{Msg}
use gridappsd_go.Auth.{Awaited, arrived, channel_closed, context_done}
use gridappsd_go.Auth.Encoding.{hex_encode}

-- What GetResponse does to crypto/rand and to the connection, in its order.
pub data ReplyCall : Type 0 where
  rand_read : ReplyCall
  subscribe : (dest : Bytes) → ReplyCall
  send : (dest content_type body : Bytes) → (headers : List (Bytes × Bytes)) → ReplyCall
  receive : (sub : ℕ) → ReplyCall
  unsubscribe : (sub : ℕ) → ReplyCall

pub record Answers : Type 0 where
  pub random : Result Bytes
  pub subscribed : Result ℕ
  pub sent : Option GoError
  pub awaited : Awaited

pub record Request : Type 0 where
  pub dest : Bytes
  pub content_type : Bytes
  pub body : Bytes
  pub base_headers : List (Bytes × Bytes)

unfoldable pub bare_reply : Bytes → Bytes
bare_reply nonce = codes "reply." ++ hex_encode nonce

-- The copy of the caller's headers with reply-to set.
unfoldable pub request_headers : List (Bytes × Bytes) → Bytes → List (Bytes × Bytes)
request_headers base bare = insert Bytes-discrete header_reply_to bare base

-- The last select.
unfoldable pub read_reply : Awaited → Result Bytes
read_reply channel_closed =
    err (errorf "reqresp: reply subscription closed before response arrived" [])
read_reply (context_done e) = err (errorf_w "reqresp: context cancelled waiting for reply: %w" [] e)
read_reply (arrived m) = elim m.error [
  | some e ↦ err (errorf_w "reqresp: reply subscription error: %w" [] e)
  | none ↦ ok m.body
]

-- The part that runs with a subscription, the deferred Unsubscribe included.
unfoldable pub send_and_wait : Answers → Request → Bytes → ℕ → Result Bytes × List ReplyCall
send_and_wait a q bare sub =
    let norm_dest = normalize_destination q.dest in
    let request = send norm_dest q.content_type q.body (request_headers q.base_headers bare) in
    elim a.sent [
      | some e ↦ (
        err (errorf_w "reqresp: send to %q: %w" (norm_dest ∷ []) e),
        request ∷ unsubscribe sub ∷ [],
      )
      | none ↦ (read_reply a.awaited, request ∷ receive sub ∷ unsubscribe sub ∷ [])
    ]

unfoldable pub subscribe_and_send : Answers → Request → Bytes → Result Bytes × List ReplyCall
subscribe_and_send a q bare =
    let queue_reply = codes "/queue/" ++ bare in
    elim a.subscribed [
      | err e ↦ (
        err (errorf_w "reqresp: subscribe reply destination %q: %w" (queue_reply ∷ []) e),
        subscribe queue_reply ∷ [],
      )
      | ok sub ↦
          let (result, calls) = send_and_wait a q bare sub in
          (result, subscribe queue_reply ∷ calls)
    ]

unfoldable pub get_response : Answers → Request → Result Bytes × List ReplyCall
get_response a q = elim a.random [
  | err e ↦ (err (errorf_w "reqresp: generating reply nonce: %w" [] e), rand_read ∷ [])
  | ok nonce ↦
      let (result, calls) = subscribe_and_send a q (bare_reply nonce) in (result, rand_read ∷ calls)
]
