-- ===== src/FieldBus.antt =====
-- fieldbus/fieldbus.go: the message bus over a session's connection and router. While a session has
-- its router, the content of the bus's error channel is the router's field `errs`.
pub mod Session
pub mod Overlap
pub mod Calls
pub mod Wire
pub mod Tests
use gridappsd_go.Common.{
  ℕ, Bytes, Bool, true, false, if◌then◌else◌, codes, List, [], ◌∷◌, Option, some, none,
}
use gridappsd_go.GoError.{GoError, errorf, errorf_w, Result, ok, err}
use gridappsd_go.Message.{header_goss_has_subject, header_goss_subject}
use gridappsd_go.Topics.{normalize_destination}
use gridappsd_go.Router.{
  Router, error_chan_buffer, new_with_error_chan, subscribe, unsubscribe, close_locked,
}
use gridappsd_go.Client.{Config}
use gridappsd_go.ReqResp.{ReplyCall, Answers, Request, get_response}

pub record Bus (H : Type 0) : Type 0 where
  pub cfg : Config
  pub conn : Option ℕ
  pub rtr : Option (Router H)
  pub connected : Bool
  pub subject : Bytes
  pub errs : List GoError

-- The headers that each request carries.
unfoldable pub subject_headers : Bytes → List (Bytes × Bytes)
subject_headers subject =
    (header_goss_has_subject, codes "true") ∷ (header_goss_subject, subject) ∷ []

-- One SEND on a connection.
pub record Sent : Type 0 where
  pub conn : ℕ
  pub dest : Bytes
  pub content_type : Bytes
  pub body : Bytes
  pub headers : List (Bytes × Bytes)

module _ {H : Type 0} where
  unfoldable pub new_bus : Config → Bus H
  new_bus cfg = record {
    cfg = cfg;
    conn = none;
    rtr = none;
    connected = false;
    subject = [];
    errs = [];
  }

  -- Connect on a bus that is not connected, with what gridappsd.Connect gives.
  unfoldable pub open_session : Bus H → Result ℕ → Bus H × Option GoError
  open_session b (err e) = (b, some (errorf_w "fieldbus connect: %w" [] e))
  open_session b (ok conn) = (
    record b {
      conn = some conn;
      rtr = some (new_with_error_chan b.errs error_chan_buffer);
      subject = b.cfg.user;
      connected = true;
    },
    none,
  )

  unfoldable pub connect_bus : (Config → Result ℕ) → Bus H → Bus H × Option GoError
  connect_bus session b = if b.connected then (b, none) else open_session b (session b.cfg)

  -- The content of the error channel.
  unfoldable pub queued_errors : Bus H → List GoError
  queued_errors b = elim b.rtr [ none ↦ b.errs | some r ↦ r.errs ]

  -- The section of Disconnect under the lock.
  unfoldable pub drop_session : Bus H → Bus H
  drop_session b = record b { rtr = none; conn = none; connected = false; errs = queued_errors b }

  -- Disconnect; `conn_disconnect` is the connection's. The subscriptions that Close cancels, and
  -- the connection that is ended after that.
  unfoldable pub disconnect_bus :
      (ℕ → Option GoError) → Bus H → Bus H × (List ℕ × Option ℕ) × Option GoError
  disconnect_bus conn_disconnect b = (
    drop_session b,
    (elim b.rtr [ none ↦ [] | some r ↦ (close_locked r).1 ], b.conn),
    elim b.conn [
      | none ↦ none
      | some conn ↦ elim (conn_disconnect conn) [
        | none ↦ none
        | some e ↦ some (errorf_w "fieldbus disconnect: %w" [] e)
      ]
    ],
  )

  unfoldable pub subscribe_bus : (Bytes → Result ℕ) → Bytes → H → Bus H → Bus H × Result ℕ
  subscribe_bus conn_subscribe destination h b = elim b.rtr [
    | none ↦ (b, err (errorf "fieldbus subscribe: not connected" []))
    | some r ↦
        let (r', result) = subscribe conn_subscribe (normalize_destination destination) h r in
        (record b { rtr = some r' }, result)
  ]

  unfoldable pub unsubscribe_bus : (ℕ → Option GoError) → Bytes → ℕ → Bus H → Bus H × Option GoError
  unsubscribe_bus sub_unsubscribe destination tok b = elim b.rtr [
    | none ↦ (b, none)
    | some r ↦
        let (r', result) = unsubscribe sub_unsubscribe (normalize_destination destination) tok r in
        (record b { rtr = some r' }, result)
  ]

  -- Send: the SEND that is made, if any, and the result.
  unfoldable pub send_bus :
      (Sent → Option GoError) → Bytes → Bytes → Bytes → Bus H → Option Sent × Option GoError
  send_bus conn_send destination content_type body b = elim b.conn [
    | none ↦ (none, some (errorf "fieldbus send: not connected" []))
    | some conn ↦ send_on (record {
      conn = conn;
      dest = normalize_destination destination;
      content_type = content_type;
      body = body;
      headers = subject_headers b.subject;
    })
  ]
    where
      send_on : Sent → Option Sent × Option GoError
      send_on request = (some request, conn_send request)

  -- GetResponse, with the answers of the connection.
  unfoldable pub get_response_bus :
      (ℕ → Answers) → Bytes → Bytes → Bytes → Bus H → Result Bytes × List ReplyCall
  get_response_bus answers destination content_type body b = elim b.conn [
    | none ↦ (err (errorf "fieldbus get_response: not connected" []), [])
    | some conn ↦ get_response (answers conn) (record {
      dest = destination;
      content_type = content_type;
      body = body;
      base_headers = subject_headers b.subject;
    })
  ]
