-- ===== src/ReqResp/Tests.antt =====
-- Concrete cases of GetResponse.
use gridappsd_go.Common.{
  ℕ, Bytes, Bytes-discrete, codes, List, [], ◌∷◌, ◌++◌, some, none, ◌≡◌, ◌≢◌, refl, ◌⊎◌, ◌↔◌,
}
use gridappsd_go.Common.Maps.{lookup}
use gridappsd_go.GoError.{ok}
use gridappsd_go.Message.{header_reply_to}
use gridappsd_go.Topics.{normalize_destination}
use gridappsd_go.Transport.{Msg}
use gridappsd_go.Auth.{arrived}
use gridappsd_go.ReqResp.{
  ReplyCall, rand_read, subscribe, send, receive, unsubscribe, Answers, Request, bare_reply,
  get_response,
}
use gridappsd_go.ReqResp.Reply.{get_response_calls, get_response_ok}

abbrev pub reply : Msg
reply = record { body = codes "yes"; destination = codes "/queue/reply.07"; error = none }

abbrev pub replying : Answers
replying = record { random = ok (7 ∷ []); subscribed = ok 2; sent = none; awaited = arrived reply }

abbrev question : Request
question = record {
  dest = codes "goss.q";
  content_type = codes "text/plain";
  body = codes "?";
  base_headers = (header_reply_to, codes "old") ∷ (codes "GOSS_SUBJECT", codes "u") ∷ [];
}

get_response_calls_example :
    (headers : List (Bytes × Bytes)) × (waits : List ReplyCall) × ((get_response replying
        question).1
      ≡ rand_read
          ∷ subscribe (codes "/queue/" ++ bare_reply (7 ∷ []))
          ∷ send (normalize_destination question.dest) question.content_type question.body headers
          ∷ waits
        ++ unsubscribe 2 ∷ [])
    × ((waits ≡ []) ⊎ (waits ≡ receive 2 ∷ []))
    × (lookup Bytes-discrete header_reply_to headers ≡ some (bare_reply (7 ∷ [])))
    × ((k : Bytes)
        → k ≢ header_reply_to
        → lookup Bytes-discrete k headers ≡ lookup Bytes-discrete k question.base_headers)
get_response_calls_example = get_response_calls replying question (7 ∷ []) 2 refl refl

get_response_ok_example : ((get_response replying question).0 ≡ ok (codes "yes")) ↔ (
    (nonce : Bytes) × (sub : ℕ) × (m : Msg) × (replying.random ≡ ok nonce)
    × (replying.subscribed ≡ ok sub)
    × (replying.sent ≡ none)
    × (replying.awaited ≡ arrived m)
    × (m.error ≡ none)
    × (m.body ≡ codes "yes"))
get_response_ok_example = get_response_ok replying question (codes "yes")
