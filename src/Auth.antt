-- ===== src/Auth.antt =====
-- internal/auth/auth.go: the token exchange against any network. What netDial, the transport and
-- the context answer is a function of all calls made so far, so an Env is any behaviour of the
-- broker and any moment at which the context ends. A trace holds the calls, the newest first.
pub mod Encoding
pub mod Steps
pub mod Text
pub mod Exchange
pub mod Teardown
pub mod Token
pub mod Durable
pub mod Tests
use gridappsd_go.Common.{ℕ, Bytes, Bool, List, [], ◌∷◌, Option, codes}
use gridappsd_go.GoError.{GoError, Result}
use gridappsd_go.Transport.{Duration, pos, ConnConfig, Msg}

-- A connection that netDial returned, a transport.Conn and a transport.Subscription are numbers.
pub data NetCall : Type 0 where
  net_dial : NetCall
  dial_conn : (rwc : ℕ) → ConnConfig → (bound : Option Duration) → NetCall
  close_rwc : (rwc : ℕ) → NetCall
  rand_read : NetCall
  subscribe : (conn : ℕ) → (dest : Bytes) → NetCall
  send : (conn : ℕ) (dest content_type body : Bytes) → (headers : List (Bytes × Bytes)) → NetCall
  receive : (sub : ℕ) → NetCall
  unsubscribe : (sub : ℕ) → NetCall
  disconnect : (conn : ℕ) → NetCall
  log_warning : (token_received : Bool) → GoError → NetCall

abbrev pub Trace : Type 0
Trace = List NetCall

-- The select on the subscription's channel and the context.
pub data Awaited : Type 0 where
  arrived : Msg → Awaited
  channel_closed : Awaited
  context_done : GoError → Awaited

-- A call of Unsubscribe that returns, or that panics with a runtime.Error. A panic with another
-- value ends the process.
pub data Unsubscribed : Type 0 where
  returned : Option GoError → Unsubscribed
  panicked : ℕ → Unsubscribed

-- `bounder` says that the dialer has WithDisconnectBound; `ctx_err` is ctx.Err(); `saw_done` says
-- that endCredentialConn sees its goroutine end before it sees a context that is done; `close_ran`
-- says that the function that context.AfterFunc runs on a goroutine of its own has closed by then.
pub record Env : Type 0 where
  pub bounder : Bool
  pub answer_net_dial : Trace → Result ℕ
  pub answer_dial : Trace → Result ℕ
  pub answer_random : Trace → Result Bytes
  pub answer_subscribe : Trace → Result ℕ
  pub answer_send : Trace → Option GoError
  pub answer_receive : Trace → Awaited
  pub answer_unsubscribe : Trace → Unsubscribed
  pub answer_disconnect : Trace → Option GoError
  pub ctx_err : Trace → Option GoError
  pub saw_done : Trace → Bool
  pub close_ran : Trace → Bool

pub record Credentials : Type 0 where
  pub user : Bytes
  pub pass : Bytes
  pub config : ConnConfig

abbrev pub token_topic : Bytes
token_topic = codes "/topic/pnnl.goss.token.topic"

abbrev pub reply_dest_prefix : Bytes
reply_dest_prefix = codes "temp.token_resp."

-- time.Second
abbrev pub credential_disconnect_bound : Duration
credential_disconnect_bound = pos 1_000_000_000
