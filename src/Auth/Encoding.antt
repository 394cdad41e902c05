-- ===== src/Auth/Encoding.antt =====
-- base64.StdEncoding, hex.EncodeToString and strings.TrimSpace, as internal/auth/auth.go and
-- internal/reqresp/reqresp.go use them.
use gridappsd_go.Common.{
  ℕ, zero, suc, ◌+◌, ◌-◌, ◌*◌, ◌/◌, ◌%◌, Bytes, Bool, ◌||◌, List, [], ◌∷◌, ◌++◌, length, take, drop,
  ltb, ◌==◌, if◌then◌else◌,
}
use gridappsd_go.Escape.{hex_pad}
use gridappsd_go.Utf8.{in_range, decode_rune}

-- The character of a value below 64.
unfoldable pub base64_char : ℕ → ℕ
base64_char n =
    if ltb n 26
    then b'A' + n
    else if ltb n 52
    then b'a' + (n - 26)
    else if ltb n 62
    then b'0' + (n - 52)
    else if n == 62
    then b'+'
    else b'/'

unfoldable pub base64_encode : Bytes → Bytes
base64_encode [] = []
base64_encode (a ∷ []) = base64_char (a / 4) ∷ base64_char (a % 4 * 16) ∷ b'=' ∷ b'=' ∷ []
base64_encode (a ∷ b ∷ []) =
    base64_char (a / 4) ∷ base64_char (a % 4 * 16 + b / 16) ∷ base64_char (b % 16 * 4) ∷ b'=' ∷ []
base64_encode (a ∷ b ∷ c ∷ s) =
    base64_char (a / 4)
    ∷ base64_char (a % 4 * 16 + b / 16)
    ∷ base64_char (b % 16 * 4 + c / 64)
    ∷ base64_char (c % 64)
    ∷ base64_encode s

unfoldable pub hex_encode : Bytes → Bytes
hex_encode [] = []
hex_encode (c ∷ s) = hex_pad 2 c ++ hex_encode s

-- unicode.IsSpace
unfoldable pub is_space : ℕ → Bool
is_space r =
    in_range r 0x09 0x0d
    || r == 0x20
    || r == 0x85
    || r == 0xa0
    || r == 0x1680
    || in_range r 0x2000 0x200a
    || r == 0x2028
    || r == 0x2029
    || r == 0x202f
    || r == 0x205f
    || r == 0x3000

-- The runes of a text with their bytes; the length is fuel enough.
unfoldable pub runes : ℕ → Bytes → List (ℕ × Bytes)
runes zero s = []
runes (suc fuel) [] = []
runes (suc fuel) (c ∷ s) =
    let (r, size) = decode_rune (c ∷ s) in (r, take size (c ∷ s)) ∷ runes fuel (drop size (c ∷ s))

unfoldable pub trim_left : List (ℕ × Bytes) → List (ℕ × Bytes)
trim_left [] = []
trim_left ((r, raw) ∷ rs) = if is_space r then trim_left rs else (r, raw) ∷ rs

-- The bytes of the runes, without the spaces at the end.
unfoldable pub trim_right : List (ℕ × Bytes) → Bytes
trim_right [] = []
trim_right ((r, raw) ∷ rs) = elim (trim_right rs) [
  | [] ↦ if is_space r then [] else raw
  | c ∷ s ↦ raw ++ c ∷ s
]

unfoldable pub trim_space : Bytes → Bytes
trim_space s = trim_right (trim_left (runes (length s) s))
