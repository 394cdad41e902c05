-- ===== src/Utf8/Canonical.antt =====
-- Decoding is canonical: a rune that is read takes the very bytes that encode it.
use gridappsd_go.Common.{ℕ, ◌≤◌, ◌<◌, ◌≡◌, ◌⊎◌, Bytes, [], ◌∷◌, take, arith}
use gridappsd_go.Utf8.{rune_error, decode_two, decode_three, decode_four, decode_rune, encode_rune}

pub decode_rune_size : (c : ℕ) (s : Bytes) → 1 ≤ (decode_rune (c ∷ s)).1
unfolding decode_rune decode_two decode_three decode_four
decode_rune_size c [] = ground arith
decode_rune_size c (d ∷ []) = ground arith
decode_rune_size c (d ∷ e ∷ []) = ground arith
decode_rune_size c (d ∷ e ∷ f ∷ s) = ground arith

abbrev pub Canonical : Bytes → ℕ × ℕ → Type 0
Canonical s (r, n) = ((r ≡ rune_error) × (n ≡ 1)) ⊎ (encode_rune r ≡ take n s)

two_Canonical : (a : ℕ) (s : Bytes) → 0xc2 ≤ a → a ≤ 0xdf → Canonical (a ∷ s) (decode_two a s)
unfolding decode_two encode_rune
two_Canonical a [] h k = ground arith
two_Canonical a (b ∷ s) h k = ground arith

three_Canonical : (a : ℕ) (s : Bytes) → 0xe0 ≤ a → a ≤ 0xef → Canonical (a ∷ s) (decode_three a s)
unfolding decode_three encode_rune
three_Canonical a [] h k = ground arith
three_Canonical a (b ∷ []) h k = ground arith
three_Canonical a (b ∷ c ∷ s) h k = ground arith

four_Canonical : (a : ℕ) (s : Bytes) → 0xf0 ≤ a → a ≤ 0xf4 → Canonical (a ∷ s) (decode_four a s)
unfolding decode_four encode_rune
four_Canonical a [] h k = ground arith
four_Canonical a (b ∷ []) h k = ground arith
four_Canonical a (b ∷ c ∷ []) h k = ground arith
four_Canonical a (b ∷ c ∷ d ∷ s) h k = ground arith

encode_rune_ascii : (c : ℕ) → c < 0x80 → encode_rune c ≡ c ∷ []
unfolding encode_rune
encode_rune_ascii c h = ground arith

pub decode_rune-Canonical : (c : ℕ) (s : Bytes) → Canonical (c ∷ s) (decode_rune (c ∷ s))
unfolding decode_rune
decode_rune-Canonical c s =
    ground (arith, encode_rune_ascii c, two_Canonical c s, three_Canonical c s, four_Canonical c s)
