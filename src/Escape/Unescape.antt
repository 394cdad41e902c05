-- ===== src/Escape/Unescape.antt =====
-- Reading a rendering back: the escapes of escape_bounded lose nothing of the broker's text.
use gridappsd_go.Common.{
  ℕ, zero, suc, ◌+◌, ◌-◌, ◌*◌, ◌/◌, ◌%◌, ◌<◌, ◌≡◌, refl, ◌≢◌, inl, inr, Bytes, Bool, true, false,
  [], ◌∷◌, ◌++◌, take, All, arith, ltb, ◌==◌, if◌then◌else◌,
}
use gridappsd_go.Utf8.{rune_error, encode_rune}
use gridappsd_go.Utf8.Canonical.{Canonical}
use gridappsd_go.Escape.{backslash, escape_token, hex_pad, hex_digit, is_format}

-- Where a reader of the rendering stands: in plain text, after a backslash, or before the last
-- `left` digits of a byte or of a rune.
pub data Mode : Type 0 where
  plain slash : Mode
  hex : (wide : Bool) (left acc : ℕ) → Mode

digit : ℕ → ℕ
digit c = if ltb c b'a' then c - b'0' else c - b'a' + 10

emit : Mode → ℕ → Bytes
emit plain c = if c == backslash then [] else c ∷ []
emit slash c = if c == backslash then backslash ∷ [] else []
emit (hex wide zero acc) c = []
emit (hex wide (suc zero) acc) c =
    if wide then encode_rune (acc * 16 + digit c) else (acc * 16 + digit c) ∷ []
emit (hex wide (suc (suc left)) acc) c = []

next : Mode → ℕ → Mode
next plain c = if c == backslash then slash else plain
next slash c =
    if c == b'x'
    then hex false 2 0
    else if c == b'u'
    then hex true 4 0
    else if c == b'U'
    then hex true 8 0
    else plain
next (hex wide zero acc) c = plain
next (hex wide (suc zero) acc) c = plain
next (hex wide (suc (suc left)) acc) c = hex wide (suc left) (acc * 16 + digit c)

unfoldable pub unescape : Mode → Bytes → Bytes
unfolding emit next digit
unescape m [] = []
unescape m (c ∷ s) = emit m c ++ unescape (next m c) s

digit-hex_digit : (d : ℕ) → d < 16 → digit (hex_digit d) ≡ d
unfolding digit hex_digit
digit-hex_digit d h = ground arith

-- A token that is read as `raw`, whatever follows it.
abbrev pub Stands : Bytes → Bytes → Type 0
Stands tok raw = (rest : Bytes) → unescape plain (tok ++ rest) ≡ raw ++ unescape plain rest

plain-Stands : (raw : Bytes) → All (λ c. c ≢ backslash) raw → Stands raw raw
unfolding unescape
plain-Stands [] h rest = refl
plain-Stands (c ∷ raw) h rest = ground (arith, plain-Stands raw h.1 rest)

backslash-Stands : Stands (backslash ∷ backslash ∷ []) (backslash ∷ [])
unfolding unescape
backslash-Stands rest = refl

byte-Stands : (n : ℕ) → n < 256 → Stands (backslash ∷ b'x' ∷ hex_pad 2 n) (n ∷ [])
unfolding unescape hex_pad
byte-Stands n h rest = ground (arith, digit-hex_digit (n / 16 % 16), digit-hex_digit (n % 16))

rune4-Stands : (r : ℕ) → r < 65536 → Stands (backslash ∷ b'u' ∷ hex_pad 4 r) (encode_rune r)
unfolding unescape hex_pad
rune4-Stands r h rest = ground (
  arith,
  digit-hex_digit (r / 16 / 16 / 16 % 16),
  digit-hex_digit (r / 16 / 16 % 16),
  digit-hex_digit (r / 16 % 16),
  digit-hex_digit (r % 16),
)

rune8-Stands : (r : ℕ) → r < 0x110000 → Stands (backslash ∷ b'U' ∷ hex_pad 8 r) (encode_rune r)
unfolding unescape hex_pad
rune8-Stands r h rest = ground (
  arith,
  digit-hex_digit (r / 16 / 16 / 16 / 16 / 16 / 16 / 16 % 16),
  digit-hex_digit (r / 16 / 16 / 16 / 16 / 16 / 16 % 16),
  digit-hex_digit (r / 16 / 16 / 16 / 16 / 16 % 16),
  digit-hex_digit (r / 16 / 16 / 16 / 16 % 16),
  digit-hex_digit (r / 16 / 16 / 16 % 16),
  digit-hex_digit (r / 16 / 16 % 16),
  digit-hex_digit (r / 16 % 16),
  digit-hex_digit (r % 16),
)

encode_rune_ascii : (r : ℕ) → r < 0x80 → encode_rune r ≡ r ∷ []
unfolding encode_rune
encode_rune_ascii r h = ground arith

encode_rune_plain : (r : ℕ) → r ≢ backslash → All (λ c. c ≢ backslash) (encode_rune r)
unfolding encode_rune
encode_rune_plain r h = ground arith

is_format-le : (r : ℕ) → is_format r ≡ true → r < 0x110000
unfolding is_format
is_format-le r h = ground arith

rune_error-ne-byte : (c : ℕ) → encode_rune rune_error ≢ c ∷ []
unfolding encode_rune
rune_error-ne-byte c e = cc

module _ (c : ℕ) (s : Bytes) (byte : c < 256) where
  pub escape_token-Stands :
      (r n : ℕ) → Canonical (c ∷ s) (r, n) → Stands (escape_token c s r n) (take n (c ∷ s))
  unfolding escape_token
  escape_token-Stands r n (inl (e, k)) rest = rw (e, k) (byte-Stands c byte rest)
  escape_token-Stands r n (inr e) rest = ground (
    arith,
    λ (h : r < 256). byte-Stands r h rest,
    λ (h : r < 65536). rune4-Stands r h rest,
    λ (h : r < 0x110000). rune8-Stands r h rest,
    backslash-Stands rest,
    encode_rune_ascii r,
    is_format-le r,
    rune_error-ne-byte c,
    λ (h : r ≢ backslash). plain-Stands (encode_rune r) (encode_rune_plain r h) rest,
  )
