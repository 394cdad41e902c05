-- ===== src/Stomp/Gate.antt =====
-- internal/stomp/stomp.go: unsubscribes against Disconnect, as interleavings of any number of calls.
-- The WaitGroup is the number of unsubscribes that have begun and not ended.
pub mod Order
use gridappsd_go.Common.{
  ℕ, zero, suc, ◌+◌, Bytes, Bool, true, false, [], Option, some, none, if◌then◌else◌, ite,
  ℕ_discrete, ◌≡◌, ◌≢◌, refl, ◌⊎◌, inl, inr, arith,
}
use gridappsd_go.GoError.{GoError, value, disconnected, runtime_error, errorf_w}

-- Where one call of Disconnect stands: before unsubs.Wait returns, in MustDisconnect, in go-stomp's
-- Disconnect, or nowhere.
pub data DisconnectPhase : Type 0 where
  idle waiting closing_transport graceful : DisconnectPhase

-- The fields of conn that the calls share, and the calls of Disconnect.
pub record Conn : Type 0 where
  pub closing : Bool
  pub unsubs : ℕ
  pub ended : Bool
  pub callers : ℕ → DisconnectPhase

-- conn as Dial makes it.
unfoldable pub new_conn : Conn
new_conn = record { closing = false; unsubs = 0; ended = false; callers = λ _. idle }

unfoldable pub set_caller : Conn → ℕ → DisconnectPhase → Conn
set_caller c i p = record c { callers = λ j. ite (ℕ_discrete i j) p (c.callers j) }

unfoldable pub mark_ended : Conn → Conn
mark_ended c = record c { ended = true }

unfoldable pub begin_unsubscribe : Conn → Conn × Bool
begin_unsubscribe c = if c.closing then (c, false) else (record c { unsubs = suc c.unsubs }, true)

unfoldable pub end_unsubscribe : Conn → Conn
end_unsubscribe c = record c { unsubs = pred_unsubs c.unsubs }
  where
    pred_unsubs : ℕ → ℕ
    pred_unsubs zero = zero
    pred_unsubs (suc n) = n

-- Disconnect up to unsubs.Wait.
unfoldable pub begin_disconnect : Conn → ℕ → Conn
begin_disconnect c i = set_caller (record c { closing = true }) i waiting

-- Disconnect after unsubs.Wait: whether it asks go-stomp for a receipt.
unfoldable pub choose_disconnect : Conn → ℕ → Conn
choose_disconnect c i = set_caller c i (if c.ended then closing_transport else graceful)

pub data GateStep (c : Conn) : Conn → Type 0 where
  begins_unsubscribe : GateStep c (begin_unsubscribe c).0
  ends_unsubscribe : c.unsubs ≢ 0 → GateStep c (end_unsubscribe c)
  marks_ended : GateStep c (mark_ended c)
  disconnects : (i : ℕ) → c.callers i ≡ idle → GateStep c (begin_disconnect c i)
  chooses : (i : ℕ) → c.callers i ≡ waiting → c.unsubs ≡ 0 → GateStep c (choose_disconnect c i)
  returns :
      (i : ℕ)
      → (c.callers i ≡ closing_transport) ⊎ (c.callers i ≡ graceful)
      → GateStep c (set_caller c i idle)

pub data GateReach : Conn → Type 0 where
  start : GateReach new_conn
  later : {c d : Conn} → GateReach c → GateStep c d → GateReach d

-- What a call of go-stomp's Unsubscribe does: return an error or none, or panic, with a
-- runtime.Error or with another value.
pub data StompOutcome : Type 0 where
  returned : Option GoError → StompOutcome
  panicked : ℕ → StompOutcome
  panicked_other : ℕ → StompOutcome

-- What a call of ours does: return, or panic on.
pub data Outcome : Type 0 where
  finished : Option GoError → Outcome
  repanicked : ℕ → Outcome

unfoldable pub recovered : StompOutcome → Outcome
recovered (returned none) = finished none
recovered (returned (some e)) = finished (some (errorf_w "stomp unsubscribe: %w" [] e))
recovered (panicked n) = finished (some (errorf_w "stomp unsubscribe: %w" [] (runtime_error n)))
recovered (panicked_other n) = repanicked n

-- sub.unsubscribe, where other goroutines make `meanwhile` of the connection while go-stomp's
-- Unsubscribe runs.
unfoldable pub gated_unsubscribe : StompOutcome → (Conn → Conn) → Conn → Conn × Outcome
gated_unsubscribe outcome meanwhile c =
    let (c', begun) = begin_unsubscribe c in
    if begun
    then (end_unsubscribe (meanwhile c'), recovered outcome)
    else (c', finished (some (value disconnected)))
