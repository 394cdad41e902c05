-- ===== src/Utf8/Valid.antt =====
-- A rune that is read is a Unicode scalar value, and a scalar value is read back from its encoding.
use gridappsd_go.Common.{ℕ, ◌≤◌, ◌<◌, ◌≡◌, ◌≢◌, ◌⊎◌, Bytes, [], ◌∷◌, ◌++◌, drop, arith, dec_lt}
use gridappsd_go.Utf8.{rune_error, decode_two, decode_three, decode_four, decode_rune, encode_rune}

abbrev pub IsScalar : ℕ → Type 0
IsScalar r = (r < 0x110000) × ((r < 0xd800) ⊎ (0xdfff < r))

two_IsScalar : (a : ℕ) (s : Bytes) → 0xc2 ≤ a → a ≤ 0xdf → IsScalar (decode_two a s).0
unfolding decode_two
two_IsScalar a [] h k = ground arith
two_IsScalar a (b ∷ s) h k = ground arith

three_IsScalar : (a : ℕ) (s : Bytes) → 0xe0 ≤ a → a ≤ 0xef → IsScalar (decode_three a s).0
unfolding decode_three
three_IsScalar a [] h k = ground arith
three_IsScalar a (b ∷ []) h k = ground arith
three_IsScalar a (b ∷ c ∷ s) h k = ground arith

four_IsScalar : (a : ℕ) (s : Bytes) → 0xf0 ≤ a → a ≤ 0xf4 → IsScalar (decode_four a s).0
unfolding decode_four
four_IsScalar a [] h k = ground arith
four_IsScalar a (b ∷ []) h k = ground arith
four_IsScalar a (b ∷ c ∷ []) h k = ground arith
four_IsScalar a (b ∷ c ∷ d ∷ s) h k = ground arith

pub decode_rune-IsScalar : (s : Bytes) → IsScalar (decode_rune s).0
unfolding decode_rune
decode_rune-IsScalar [] = ground arith
decode_rune-IsScalar (c ∷ s) =
    ground (arith, two_IsScalar c s, three_IsScalar c s, four_IsScalar c s)

-- One lemma for each length of the encoding.
decode_of_one : (r : ℕ) (t : Bytes) → r < 0x80 → decode_rune (encode_rune r ++ t) ≡ (r, 1)
unfolding decode_rune encode_rune
decode_of_one r t h = ground arith

decode_of_two :
    (r : ℕ) (t : Bytes) → 0x80 ≤ r → r < 0x800 → decode_rune (encode_rune r ++ t) ≡ (r, 2)
unfolding decode_rune decode_two encode_rune
decode_of_two r t h k = ground arith

decode_of_three :
    (r : ℕ) (t : Bytes)
    → 0x800 ≤ r
    → r < 0x10000
    → IsScalar r
    → decode_rune (encode_rune r ++ t) ≡ (r, 3)
unfolding decode_rune decode_three encode_rune
decode_of_three r t h k v = ground arith

decode_of_four :
    (r : ℕ) (t : Bytes) → 0x10000 ≤ r → r < 0x110000 → decode_rune (encode_rune r ++ t) ≡ (r, 4)
unfolding decode_rune decode_four encode_rune
decode_of_four r t h k = ground arith

pub decode-encode_rune : (r : ℕ) (t : Bytes) → IsScalar r → (decode_rune (encode_rune r ++ t)).0 ≡ r
decode-encode_rune r t h = ground (
  arith,
  decode_of_one r t,
  decode_of_two r t,
  decode_of_three r t,
  decode_of_four r t,
  dec_lt r 0x80,
  dec_lt r 0x800,
  dec_lt r 0x10000,
)

pub drop-encode_rune :
    (r : ℕ) (t : Bytes)
    → IsScalar r
    → drop (decode_rune (encode_rune r ++ t)).1 (encode_rune r ++ t) ≡ t
unfolding decode_rune decode_two decode_three decode_four encode_rune
drop-encode_rune r t h = ground arith

pub decode-encode_rune_valid :
    (r : ℕ) (t : Bytes) → IsScalar r → decode_rune (encode_rune r ++ t) ≢ (rune_error, 1)
decode-encode_rune_valid r t h e = ground (
  arith,
  decode_of_one r t,
  decode_of_two r t,
  decode_of_three r t,
  decode_of_four r t,
  dec_lt r 0x80,
  dec_lt r 0x800,
  dec_lt r 0x10000,
)
