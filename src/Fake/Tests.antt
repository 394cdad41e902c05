-- ===== src/Fake/Tests.antt =====
-- Concrete uses of a fake connection.
use gridappsd_go.Common.{
  Bytes, Bytes-discrete, codes, true, List, [], ◌∷◌, ◌++◌, none, some, ◌≡◌, refl, ◌⊎◌, arith,
}
use gridappsd_go.Common.Maps.{lookup}
use gridappsd_go.GoError.{errorf, ok, err}
use gridappsd_go.Message.{header_reply_to}
use gridappsd_go.Topics.{normalize_destination}
use gridappsd_go.Transport.{Msg}
use gridappsd_go.Auth.{arrived}
use gridappsd_go.ReqResp.{Request, bare_reply, get_response}
use gridappsd_go.Fake.{SendRecord, FakeConn, new_fake_conn, new_fake_sub, last_send, sub_for_dest}
use gridappsd_go.Fake.Record.{
  FakeCall, sends, subscribes, disconnects, fake_calls, sent_by, Notified, fake_calls_record,
}
use gridappsd_go.Fake.Subs.{
  SubCall, push, take, unsubscribe, close, SubRun, sub_calls, Flows, sub_calls-Flows,
}
use gridappsd_go.Fake.Reply.{fake_answers, performs, get_response_fake}

abbrev frame : SendRecord
frame = record {
  destination = codes "/queue/a";
  content_type = codes "text/plain";
  body = codes "x";
  headers = [];
}

-- A connection whose test waits for the first Send.
abbrev notified : FakeConn
unfolding new_fake_conn
notified = record new_fake_conn { send_notify = true }

notified-Notified : Notified notified
unfolding new_fake_conn
notified-Notified = record { closed_once = refl; once_done = λ h. refl }

abbrev two_sends : List FakeCall
two_sends = sends frame ∷ subscribes (codes "/queue/b") ∷ sends frame ∷ disconnects ∷ []

fake_calls_record_example :
    let c' = fake_calls two_sends notified in
    (c'.sends ≡ sent_by two_sends)
    × (((sent_by two_sends ≡ []) × (last_send c' ≡ err (errorf "no sends recorded" [])))
        ⊎ ((before : List SendRecord) × (r : SendRecord) × (sent_by two_sends ≡ before ++ r ∷ [])
            × (last_send c' ≡ ok r)))
    × Notified c'
fake_calls_record_example =
    fake_calls_record two_sends notified (unfold new_fake_conn in refl) notified-Notified

abbrev hello : Msg
hello = record { body = codes "hello"; destination = codes "/queue/b"; error = none }

abbrev new_run : SubRun
new_run = record { accepted = []; received = []; sub = new_fake_sub (codes "/queue/b") }

new_run-Flows : Flows new_run
unfolding new_fake_sub
new_run-Flows = record {
  closed_once = refl;
  unsub_closes = λ h. h;
  room = omega arith;
  in_order = refl;
}

abbrev sub_use : List SubCall
sub_use = push hello ∷ push hello ∷ take ∷ close ∷ push hello ∷ unsubscribe ∷ take ∷ []

sub_calls-Flows_example : Flows (sub_calls sub_use new_run)
sub_calls-Flows_example = sub_calls-Flows sub_use new_run new_run-Flows

abbrev question : Request
question = record {
  dest = codes "goss.q";
  content_type = codes "text/plain";
  body = codes "?";
  base_headers = [];
}

get_response_fake_example :
    let c' =
      performs
        (get_response (fake_answers notified (7 ∷ []) (arrived hello)) question).1
        notified in
    (headers : List (Bytes × Bytes)) × (c'.sends
      ≡ notified.sends
        ++ record {
          destination = normalize_destination question.dest;
          content_type = question.content_type;
          body = question.body;
          headers = headers;
        }
          ∷ [])
    × (lookup Bytes-discrete header_reply_to headers ≡ some (bare_reply (7 ∷ [])))
    × (sub_for_dest c' (codes "/queue/" ++ bare_reply (7 ∷ [])) ≡ some notified.made)
    × ((c'.heap notified.made).unsub_called ≡ true)
get_response_fake_example =
    get_response_fake notified question (7 ∷ []) (arrived hello) (unfold new_fake_conn in refl)
