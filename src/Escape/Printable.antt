-- ===== src/Escape/Printable.antt =====
-- A rendering of escape_bounded cannot split a log line, move a terminal's cursor or hide text.
use gridappsd_go.Common.{
  ℕ, zero, suc, ◌/◌, ◌%◌, ◌≤◌, ◌<◌, ◌≡◌, subst, ◌≢◌, inl, inr, Bytes, Bool, false, List, [], ◌∷◌,
  ◌++◌, ◌&&◌, ◌||◌, ◌==◌, ltb, length, drop, All, All-left, append_assoc, append-nil, arith,
}
use gridappsd_go.Utf8.{decode_rune, encode_rune, in_range, rune_error}
use gridappsd_go.Utf8.Canonical.{Canonical, decode_rune-Canonical}
use gridappsd_go.Utf8.Valid.{
  IsScalar, decode_rune-IsScalar, decode-encode_rune, decode-encode_rune_valid, drop-encode_rune,
}
use gridappsd_go.Escape.{
  backslash, next_token, escape_bounded, escape_token, hex_pad, hex_digit, is_format,
}
use gridappsd_go.Common.{if_rule}
use gridappsd_go.Escape.Tokens.{tokens, join, Cuts, escape_bounded-Cuts}

-- The code points that Unicode gives the property Bidi_Control: the Arabic letter mark, the two
-- direction marks, the embeddings and overrides with their pop, and the isolates with theirs.
unfoldable pub is_bidi_control : ℕ → Bool
is_bidi_control r =
    r == 0x061c
    || r == 0x200e
    || r == 0x200f
    || r == 0x202a
    || r == 0x202b
    || r == 0x202c
    || r == 0x202d
    || r == 0x202e
    || r == 0x2066
    || r == 0x2067
    || r == 0x2068
    || r == 0x2069

-- Those without width: the space, the non-joiner, the joiner, the word joiner, and the no-break
-- space that is the byte order mark.
unfoldable pub is_zero_width : ℕ → Bool
is_zero_width r = r == 0x200b || r == 0x200c || r == 0x200d || r == 0x2060 || r == 0xfeff

-- The block Tags.
unfoldable pub is_tag : ℕ → Bool
is_tag r = r / 0x80 == 0x1c00

-- A control, a line or paragraph separator, or a character that reorders or hides text.
unfoldable pub is_unsafe : ℕ → Bool
is_unsafe r =
    ltb r 0x20
    || r == 0x7f
    || in_range r 0x80 0x9f
    || r == 0x2028
    || r == 0x2029
    || is_bidi_control r
    || is_zero_width r
    || is_tag r

-- Valid UTF-8, every rune of it safe.
pub data Printable : Bytes → Type 0 where
  nil : Printable []
  rune :
      {s : Bytes}
      → decode_rune s ≢ (rune_error, 1)
      → is_unsafe (decode_rune s).0 ≡ false
      → Printable (drop (decode_rune s).1 s)
      → Printable s

-- A safe ASCII character in front.
pub ascii-Printable : (c : ℕ) (t : Bytes) → 0x20 ≤ c → c < 0x7f → Printable t → Printable (c ∷ t)
ascii-Printable c t h k p = rune (ground (arith, d)) (ground (arith, d, safe)) (rw d p)
  where
    d : decode_rune (c ∷ t) ≡ (c, 1)
    d = unfold decode_rune in ground arith

    safe : is_unsafe c ≡ false
    safe = unfold is_unsafe is_bidi_control is_zero_width is_tag in ground arith

-- A safe rune in front.
rune-Printable :
    (r : ℕ) (t : Bytes)
    → IsScalar r
    → is_unsafe r ≡ false
    → Printable t
    → Printable (encode_rune r ++ t)
rune-Printable r t v h p =
    rune (decode-encode_rune_valid r t v) (rw (decode-encode_rune r t v) h)
      (rw (drop-encode_rune r t v) p)

hex_digit_range : (d : ℕ) → d < 16 → (0x20 ≤ hex_digit d) × (hex_digit d < 0x7f)
unfolding hex_digit
hex_digit_range d h = ground arith

hex_pad-Printable : (w n : ℕ) (t : Bytes) → Printable t → Printable (hex_pad w n ++ t)
unfolding hex_pad
hex_pad-Printable zero n t p = p
hex_pad-Printable (suc w) n t p =
    rw (append_assoc (hex_pad w (n / 16)) (hex_digit (n % 16) ∷ []) t) (
      hex_pad-Printable w (n / 16) (hex_digit (n % 16) ∷ t)
        (ascii-Printable (hex_digit (n % 16)) t r.0 r.1 p))
  where
    r : (0x20 ≤ hex_digit (n % 16)) × (hex_digit (n % 16) < 0x7f)
    r = hex_digit_range (n % 16) (omega arith)

abbrev IsLetter : ℕ → Type 0
IsLetter x = (0x20 ≤ x) × (x < 0x7f)

-- A backslash, a letter and `w` digits.
escape-Printable :
    (x w n : ℕ) (t : Bytes)
    → IsLetter x
    → Printable t
    → Printable (backslash ∷ x ∷ (hex_pad w n ++ t))
escape-Printable x w n t h p =
    ascii-Printable backslash _ (omega arith) (omega arith)
      (ascii-Printable x _ h.0 h.1 (hex_pad-Printable w n t p))

-- isFormat knows each of these characters.
is_format-bidi_control : (r : ℕ) → is_format r ≡ false → is_bidi_control r ≡ false
unfolding is_format is_bidi_control
is_format-bidi_control r h = ground (arith)

is_format-zero_width : (r : ℕ) → is_format r ≡ false → is_zero_width r ≡ false
unfolding is_format is_zero_width
is_format-zero_width r h = ground (arith)

is_format-tag : (r : ℕ) → is_format r ≡ false → is_tag r ≡ false
unfolding is_format is_tag
is_format-tag r h = ground (arith)

all_tests :
    (r : ℕ)
    → (ltb r 0x20 || r == 0x7f) ≡ false
    → (in_range r 0x80 0x9f || r == 0x2028 || r == 0x2029) ≡ false
    → is_format r ≡ false
    → is_unsafe r ≡ false
unfolding is_unsafe
all_tests r control separator format =
    ground (
      arith,
      is_format-bidi_control r format,
      is_format-zero_width r format,
      is_format-tag r format,
    )

-- The `switch` of escapeBounded tests for every unsafe rune.
escape_token_cases :
    (P : Bytes → Type 0) (c : ℕ) (s : Bytes) (r n : ℕ)
    → Canonical (c ∷ s) (r, n)
    → ((x w m : ℕ) → IsLetter x → P (backslash ∷ x ∷ hex_pad w m))
    → P (backslash ∷ backslash ∷ [])
    → (is_unsafe r ≡ false → P (encode_rune r))
    → P (escape_token c s r n)
unfolding escape_token
escape_token_cases P c s r n (inl (e, k)) hex slash kept = rw (e, k) (hex b'x' 2 c (omega arith))
escape_token_cases P c s r n (inr e) hex slash kept = rw (← e) (
    if_rule P (r == rune_error && n == 1) (λ _. hex b'x' 2 c (omega arith))
      λ _.
        if_rule P (r == backslash) (λ _. slash)
          λ _.
            if_rule P (ltb r 0x20 || r == 0x7f) (λ _. hex b'x' 2 r (omega arith))
              λ control.
                if_rule P (in_range r 0x80 0x9f || r == 0x2028 || r == 0x2029)
                  (λ _. hex b'u' 4 r (omega arith))
                  λ separator.
                    if_rule P (is_format r)
                      (λ _.
                        if_rule P (ltb 0xffff r) (λ _. hex b'U' 8 r (omega arith))
                          λ _. hex b'u' 4 r (omega arith))
                      λ format. kept (all_tests r control separator format))

next_token-Printable : (c : ℕ) (s t : Bytes) → Printable t → Printable ((next_token c s).0 ++ t)
unfolding next_token
next_token-Printable c s t p =
    let r = (decode_rune (c ∷ s)).0 in
    escape_token_cases (λ tok. Printable (tok ++ t)) c s r (decode_rune (c ∷ s)).1
      (decode_rune-Canonical c s) (λ x w m h. escape-Printable x w m t h p)
      (ascii-Printable backslash _ (omega arith) (omega arith)
        (ascii-Printable backslash _ (omega arith) (omega arith) p))
      (λ h. rune-Printable r t (decode_rune-IsScalar (c ∷ s)) h p)

abbrev KeepsPrintable : Bytes → Type 0
KeepsPrintable tok = (t : Bytes) → Printable t → Printable (tok ++ t)

tokens-KeepsPrintable : (fuel : ℕ) (s : Bytes) → All KeepsPrintable (tokens fuel s)
unfolding tokens
tokens-KeepsPrintable zero s = tt
tokens-KeepsPrintable (suc fuel) [] = tt
tokens-KeepsPrintable (suc fuel) (c ∷ s) =
    (next_token-Printable c s, tokens-KeepsPrintable fuel (drop (next_token c s).1 (c ∷ s)))

join-Printable :
    (ts : List Bytes) (rest : Bytes)
    → All KeepsPrintable ts
    → Printable rest
    → Printable (join ts ++ rest)
unfolding join
join-Printable [] rest h p = p
join-Printable (t ∷ ts) rest h p =
    rw (append_assoc t (join ts) rest) (h.0 (join ts ++ rest) (join-Printable ts rest h.1 p))

Cuts-Printable :
    (limit : ℕ) (ts : List Bytes) (r : Bytes × Bool) (rest : Bytes)
    → All KeepsPrintable ts
    → Cuts limit [] ts r
    → Printable rest
    → Printable (r.0 ++ rest)
Cuts-Printable limit ts (out, truncated) rest h (inl (_, q, _)) p =
    rw q (join-Printable ts rest h p)
Cuts-Printable limit ts (out, truncated) rest h (inr (kept, tok, left, _, p, q, _, _)) p' = rw q (
    join-Printable kept rest
      (All-left KeepsPrintable kept (tok ∷ left) (subst (All KeepsPrintable) p h)) p')

-- The same, in front of a text that is printable.
pub escape_bounded-Printable_append :
    (s : Bytes) (limit : ℕ) (rest : Bytes)
    → Printable rest
    → Printable ((escape_bounded s limit).0 ++ rest)
escape_bounded-Printable_append s limit rest =
    Cuts-Printable limit (tokens (length s) s) (escape_bounded s limit) rest
      (tokens-KeepsPrintable (length s) s) (escape_bounded-Cuts s limit)

-- Whatever the broker sent, the rendering is valid UTF-8 with no control, no line or paragraph
-- separator, no bidirectional control, no zero-width character and no tag in it.
pub escape_bounded-Printable : (s : Bytes) (limit : ℕ) → Printable (escape_bounded s limit).0
escape_bounded-Printable s limit =
    subst Printable (append-nil (escape_bounded s limit).0)
      (escape_bounded-Printable_append s limit [] nil)
