-- ===== src/Escape/Tests.antt =====
-- Runs of escapeBounded, and its theorems at concrete texts.
use gridappsd_go.Common.{◌≡◌, refl, false, true, [], ◌∷◌, codes, Bytes, length, arith}
use gridappsd_go.Escape.{
  escape_loop, escape_bounded, escape_token, next_token, hex_pad, hex_digit, is_format,
}
use gridappsd_go.Escape.Tokens.{tokens, Cuts, escape_bounded-Cuts}
use gridappsd_go.Escape.RoundTrip.{ReadsBack, escape_bounded-ReadsBack}
use gridappsd_go.Escape.Printable.{Printable, escape_bounded-Printable}
unfoldable use gridappsd_go.Utf8.{decode_rune, decode_two, decode_three}

backslash_doubled : escape_bounded (codes "a\\b") 100 ≡ (codes "a\\\\b", false)
unfolding escape_bounded escape_loop next_token escape_token decode_rune hex_pad hex_digit is_format
backslash_doubled = refl

cut_between_tokens :
    escape_bounded (0xc2 ∷ 0x85 ∷ 0xff ∷ 0xe4 ∷ 0xb8 ∷ 0xad ∷ []) 12 ≡ (codes "\\u0085\\xff", true)
unfolding escape_bounded escape_loop next_token escape_token decode_rune decode_two decode_three
    hex_pad hex_digit is_format
cut_between_tokens = refl

-- A line break, a control of two bytes and an invalid byte.
abbrev hostile : Bytes
hostile = 0x0a ∷ 0xc2 ∷ 0x85 ∷ 0xff ∷ []

escape_bounded-Cuts_example : Cuts 9 [] (tokens (length hostile) hostile) (escape_bounded hostile 9)
escape_bounded-Cuts_example = escape_bounded-Cuts hostile 9

escape_bounded-ReadsBack_example : ReadsBack hostile (escape_bounded hostile 9)
escape_bounded-ReadsBack_example = escape_bounded-ReadsBack hostile 9 (omega arith)

escape_bounded-Printable_example : Printable (escape_bounded hostile 9).0
escape_bounded-Printable_example = escape_bounded-Printable hostile 9
