-- ===== src/Utf8.antt =====
-- utf8.DecodeRuneInString, which internal/auth/auth.go reads broker text with: the rune at the
-- start of a byte string and the number of bytes it takes, RuneError and 1 for an invalid byte.
pub mod Canonical
pub mod Valid
use gridappsd_go.Common.{
  ℕ, ◌+◌, ◌*◌, ◌%◌, ◌/◌, Bytes, Bool, ◌&&◌, List, [], ◌∷◌, ltb, leb, ◌==◌, if◌then◌else◌,
}

abbrev pub in_range : ℕ → ℕ → ℕ → Bool
in_range c lo hi = leb lo c && leb c hi

abbrev pub rune_error : ℕ
rune_error = 0xfffd

abbrev pub invalid : ℕ × ℕ
invalid = (rune_error, 1)

unfoldable pub decode_two : ℕ → Bytes → ℕ × ℕ
decode_two a [] = invalid
decode_two a (b ∷ s) = if in_range b 0x80 0xbf then (a % 32 * 64 + b % 64, 2) else invalid

-- The second byte's range excludes overlong forms and surrogates.
unfoldable pub decode_three : ℕ → Bytes → ℕ × ℕ
decode_three a [] = invalid
decode_three a (b ∷ []) = invalid
decode_three a (b ∷ c ∷ s) =
    if in_range b (if a == 0xe0 then 0xa0 else 0x80) (if a == 0xed then 0x9f else 0xbf)
      && in_range c 0x80 0xbf
    then (a % 16 * 4096 + b % 64 * 64 + c % 64, 3)
    else invalid

unfoldable pub decode_four : ℕ → Bytes → ℕ × ℕ
decode_four a [] = invalid
decode_four a (b ∷ []) = invalid
decode_four a (b ∷ c ∷ []) = invalid
decode_four a (b ∷ c ∷ d ∷ s) =
    if in_range b (if a == 0xf0 then 0x90 else 0x80) (if a == 0xf4 then 0x8f else 0xbf)
      && in_range c 0x80 0xbf
      && in_range d 0x80 0xbf
    then (a % 8 * 262144 + b % 64 * 4096 + c % 64 * 64 + d % 64, 4)
    else invalid

unfoldable pub decode_rune : Bytes → ℕ × ℕ
decode_rune [] = (rune_error, 0)
decode_rune (a ∷ s) =
    if ltb a 0x80
    then (a, 1)
    else if in_range a 0xc2 0xdf
    then decode_two a s
    else if in_range a 0xe0 0xef
    then decode_three a s
    else if in_range a 0xf0 0xf4
    then decode_four a s
    else invalid

-- The UTF-8 form of a rune.
unfoldable pub encode_rune : ℕ → Bytes
encode_rune r =
    if ltb r 0x80
    then r ∷ []
    else if ltb r 0x800
    then (0xc0 + r / 64) ∷ (0x80 + r % 64) ∷ []
    else if ltb r 0x10000
    then (0xe0 + r / 4096) ∷ (0x80 + r / 64 % 64) ∷ (0x80 + r % 64) ∷ []
    else (0xf0 + r / 262144) ∷ (0x80 + r / 4096 % 64) ∷ (0x80 + r / 64 % 64) ∷ (0x80 + r % 64) ∷ []
