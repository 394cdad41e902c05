-- ===== src/Transport.antt =====
-- transport/transport.go: the settings of a connection, and messages. A time.Duration is a signed
-- number of nanoseconds; its bounds are those of the values passed in, nothing is added to it.
use gridappsd_go.Common.{ℕ, zero, suc, ◌/◌, Bytes, Bool, true, false, [], Option, some, ltb}
use gridappsd_go.GoError.{GoError}

-- `negsuc n` is -(n + 1).
pub data Duration : Type 0 where
  pos : ℕ → Duration
  negsuc : ℕ → Duration

abbrev pub is_zero : Duration → Bool
is_zero (pos zero) = true
is_zero _ = false

abbrev pub is_positive : Duration → Bool
is_positive (pos n) = ltb 0 n
is_positive (negsuc n) = false

-- `d / 2`, which rounds towards zero.
abbrev pub half : Duration → Duration
half (pos n) = pos (n / 2)
half (negsuc zero) = pos 0
half (negsuc (suc n)) = negsuc (n / 2)

pub record HeartBeatIntervals : Type 0 where
  pub send : Duration
  pub recv : Duration

pub record ConnConfig : Type 0 where
  pub login : Bytes
  pub passcode : Bytes
  pub heart_beat : Duration
  pub heart_beats : Option HeartBeatIntervals

pub record Msg : Type 0 where
  pub body : Bytes
  pub destination : Bytes
  pub error : Option GoError

abbrev pub error_msg : GoError → Msg
error_msg e = record { body = []; destination = []; error = some e }
