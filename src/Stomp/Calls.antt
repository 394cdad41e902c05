-- ===== src/Stomp/Calls.antt =====
-- internal/stomp/stomp.go: Send and Subscribe of conn, and the part of Disconnect after unsubs.Wait,
-- against the answers of go-stomp.
use gridappsd_go.Common.{
  Bool, true, false, Bytes, List, [], ◌∷◌, Option, some, none, ◌&&◌, if◌then◌else◌, ◌≡◌, refl, ◌⊎◌,
  inl, inr, arith, ℕ, Bool-cases,
}
use gridappsd_go.GoError.{GoError, ErrorId, receipt_timeout, errors_is, errorf_w, Result, ok, err}
use gridappsd_go.Transport.{Duration, is_positive}
use gridappsd_go.Stomp.{ConnSettings}

-- One SEND of go-stomp, with the headers as options.
pub record Frame : Type 0 where
  pub dest : Bytes
  pub content_type : Bytes
  pub body : Bytes
  pub headers : List (Bytes × Bytes)

unfoldable pub send_frame : (Frame → Option GoError) → Frame → Option GoError
send_frame stomp_send f = elim (stomp_send f) [
  | none ↦ none
  | some e ↦ some (errorf_w "stomp send %q: %w" (f.dest ∷ []) e)
]

unfoldable pub subscribe_dest : (Bytes → Result ℕ) → Bytes → Result ℕ
subscribe_dest stomp_subscribe dest = elim (stomp_subscribe dest) [
  | ok sub ↦ ok sub
  | err e ↦ err (errorf_w "stomp subscribe %q: %w" (dest ∷ []) e)
]

-- What Disconnect asks of go-stomp and of the transport, in its order. The timer's function closes
-- the transport when it fires.
pub data EndCall : Type 0 where
  must_disconnect : EndCall
  start_timer : Duration → EndCall
  graceful_disconnect : EndCall

-- The error of go-stomp's Disconnect as it is passed on; `fired` is `closed`. The durations in the
-- texts are left out.
unfoldable pub disconnect_error : ConnSettings → Bool → GoError → GoError
disconnect_error c fired e =
    if is_positive c.bound && errors_is receipt_timeout e
    then errorf_w "stomp disconnect: no receipt within the %v bound: %w" [] e
    else if fired
    then errorf_w
        "stomp disconnect: no receipt within %v, half the %v bound, so the transport was closed: %w"
        [] e
    else errorf_w "stomp disconnect: %w" [] e

unfoldable pub graceful_result : ConnSettings → Bool → Option GoError → Option GoError
graceful_result c fired none = none
graceful_result c fired (some e) = some (disconnect_error c fired e)

-- Disconnect after unsubs.Wait, with the answers of go-stomp's MustDisconnect and Disconnect.
unfoldable pub finish_disconnect :
    ConnSettings
    → (ended : Bool) → (fired : Bool) → (must graceful : Option GoError)
    → List EndCall × Option GoError
finish_disconnect c true fired must graceful = (
  must_disconnect ∷ [],
  elim must [ none ↦ none | some e ↦ some (errorf_w "stomp disconnect: %w" [] e) ],
)
finish_disconnect c false fired must graceful =
    if is_positive c.close_after
    then (start_timer c.close_after ∷ graceful_disconnect ∷ [], graceful_result c fired graceful)
    else (graceful_disconnect ∷ [], graceful_result c false graceful)

-- An error that wraps another one, to errors.Is.
abbrev pub Wraps : Option GoError → Option GoError → Type 0
Wraps x none = x ≡ none
Wraps x (some e) = (y : GoError) × (x ≡ some y) × ((k : ErrorId) → errors_is k y ≡ errors_is k e)

disconnect_error-is :
    (c : ConnSettings) (fired : Bool) (e : GoError) (k : ErrorId)
    → errors_is k (disconnect_error c fired e) ≡ errors_is k e
unfolding disconnect_error errors_is
disconnect_error-is c fired e k = ground arith

graceful_result-Wraps :
    (c : ConnSettings) (fired : Bool) (answer : Option GoError)
    → Wraps (graceful_result c fired answer) answer
unfolding graceful_result
graceful_result-Wraps c fired none = refl
graceful_result-Wraps c fired (some e) = (_, refl, disconnect_error-is c fired e)

-- Disconnect asks go-stomp for one end of the connection: the one without a receipt exactly if the
-- end has been seen, and under a timer if the connection has a bound. It fails exactly if that call
-- fails, and its error is to errors.Is the error of that call.
finish_disconnect-Wraps :
    (c : ConnSettings) (ended fired : Bool) (must graceful : Option GoError)
    → let (calls, result) = finish_disconnect c ended fired must graceful in
      ((ended ≡ true) × (calls ≡ must_disconnect ∷ []) × Wraps result must)
      ⊎ ((ended ≡ false)
          × (calls ≡ (
              if is_positive c.close_after
              then start_timer c.close_after ∷ graceful_disconnect ∷ []
              else graceful_disconnect ∷ []))
          × Wraps result graceful)
unfolding finish_disconnect errors_is
finish_disconnect-Wraps c true fired none graceful = inl (refl, refl, refl)
finish_disconnect-Wraps c true fired (some e) graceful = inl (refl, refl, (_, refl, (λ k. refl)))
finish_disconnect-Wraps c false fired must graceful =
    elim (Bool-cases (is_positive c.close_after)) [
      | inl e ↦ inr (rw (finish_disconnect, e) (refl, refl, graceful_result-Wraps c fired graceful))
      | inr e ↦ inr (rw (finish_disconnect, e) (refl, refl, graceful_result-Wraps c false graceful))
    ]
