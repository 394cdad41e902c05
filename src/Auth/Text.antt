-- ===== src/Auth/Text.antt =====
-- internal/auth/auth.go: the text of a teardown error, as it is logged. The texts of the two steps'
-- own errors are any bytes.
pub mod Bounds
use gridappsd_go.Common.{
  ℕ, zero, suc, ◌+◌, ◌/◌, ◌%◌, Bytes, codes, Bool, true, false, List, [], ◌∷◌, ◌++◌, Option, none,
  some, length, ltb, if◌then◌else◌,
}
use gridappsd_go.Escape.{escape_bounded}

abbrev pub max_step_err_len : ℕ
max_step_err_len = 512

-- The digits of `%d`; more rounds than digits are fuel enough.
unfoldable pub digits : ℕ → ℕ → Bytes
digits zero n = []
digits (suc fuel) n =
    let front = digits fuel (n / 10) in
    if ltb n 10 then (b'0' + n) ∷ [] else front ++ ((b'0' + n % 10) ∷ [])

unfoldable pub decimal : ℕ → Bytes
decimal n = digits (suc n) n

unfoldable pub note : ℕ → Bytes
note n = codes "... (truncated, " ++ (decimal n ++ codes " bytes)")

-- boundedError.Error, on the text of the error that it holds.
unfoldable pub bounded_text : Bytes → Bytes
bounded_text raw =
    let (s, truncated) = escape_bounded raw max_step_err_len in
    if truncated then s ++ note (length raw) else s

-- joinSteps of the bounded errors of the two steps.
unfoldable pub step_text : Option Bytes → Option Bytes → Option Bytes
step_text (some u) (some d) = some (bounded_text u ++ (codes "; " ++ bounded_text d))
step_text (some u) none = some (bounded_text u)
step_text none (some d) = some (bounded_text d)
step_text none none = none
