-- ===== src/Escape.antt =====
-- internal/auth/auth.go: escapeBounded and isFormat, which make broker text printable and short.
pub mod Tokens
pub mod Unescape
pub mod RoundTrip
pub mod Printable
pub mod Tests
use gridappsd_go.Common.{
  ℕ, zero, suc, ◌+◌, ◌-◌, ◌%◌, ◌/◌, Bytes, Bool, true, false, ◌&&◌, ◌||◌, List, [], ◌∷◌, ◌++◌,
  length, take, drop, codes, ltb, leb, ◌==◌, if◌then◌else◌,
}
use gridappsd_go.Utf8.{in_range, rune_error, decode_rune}

-- A hexadecimal digit, and `%0wx` of a number below 16 ^ w.
unfoldable pub hex_digit : ℕ → ℕ
hex_digit n = if ltb n 10 then b'0' + n else b'a' + (n - 10)

unfoldable pub hex_pad : ℕ → ℕ → Bytes
hex_pad zero n = []
hex_pad (suc w) n = hex_pad w (n / 16) ++ hex_digit (n % 16) ∷ []

unfoldable pub is_format : ℕ → Bool
is_format r =
    r == 0x061c
    || r == 0x200e
    || r == 0x200f
    || in_range r 0x200b 0x200d
    || in_range r 0x202a 0x202e
    || r == 0x2060
    || in_range r 0x2066 0x2069
    || r == 0xfeff
    || in_range r 0xe0000 0xe007f

abbrev pub backslash : ℕ
backslash = b'\\'

-- The `switch` of escapeBounded: the text for the rune `r` that takes `size` bytes of `c ∷ s`.
unfoldable pub escape_token : ℕ → Bytes → ℕ → ℕ → Bytes
escape_token c s r size =
    if r == rune_error && size == 1
    then backslash ∷ b'x' ∷ hex_pad 2 c
    else if r == backslash
    then backslash ∷ backslash ∷ []
    else if ltb r 0x20 || r == 0x7f
    then backslash ∷ b'x' ∷ hex_pad 2 r
    else if in_range r 0x80 0x9f || r == 0x2028 || r == 0x2029
    then backslash ∷ b'u' ∷ hex_pad 4 r
    else if is_format r
    then if ltb 0xffff r then backslash ∷ b'U' ∷ hex_pad 8 r else backslash ∷ b'u' ∷ hex_pad 4 r
    else take size (c ∷ s)

-- The token at the start of a text that is not empty, and the bytes that it stands for.
unfoldable pub next_token : ℕ → Bytes → Bytes × ℕ
next_token c s = let (r, size) = decode_rune (c ∷ s) in (escape_token c s r size, size)

-- The loop, over the text that is left; `built` is what the builder holds. Each round takes a byte
-- at least, so the length of the text is fuel enough.
unfoldable pub escape_loop : ℕ → ℕ → Bytes → Bytes → Bytes × Bool
escape_loop zero limit built s = (built, false)
escape_loop (suc fuel) limit built [] = (built, false)
escape_loop (suc fuel) limit built (c ∷ s) =
    let (tok, size) = next_token c s in
    let rest = escape_loop fuel limit (built ++ tok) (drop size (c ∷ s)) in
    if ltb limit (length built + length tok) then (built, true) else rest

unfoldable pub escape_bounded : Bytes → ℕ → Bytes × Bool
escape_bounded s limit = escape_loop (length s) limit [] s
