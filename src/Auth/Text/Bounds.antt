-- ===== src/Auth/Text/Bounds.antt =====
-- internal/auth/auth.go: the logged text of a teardown error is one printable line of bounded length.
use gridappsd_go.Common.{
  ℕ, zero, suc, ◌+◌, ◌-◌, ◌*◌, ◌/◌, ◌%◌, ◌^◌, ◌≤◌, ◌<◌, ◌≡◌, refl, ◌⊎◌, inl, inr, Bytes, codes,
  true, false, [], ◌∷◌, ◌++◌, Option, none, some, length, ltb, arith, length-append, Bool-cases,
  append_assoc, append-nil, subst, All,
}
use gridappsd_go.Escape.{escape_bounded}
use gridappsd_go.Escape.Tokens.{escape_bounded-Cuts}
use gridappsd_go.Escape.Printable.{Printable, nil, ascii-Printable, escape_bounded-Printable_append}
use gridappsd_go.Auth.Text.{max_step_err_len, digits, decimal, note, bounded_text, step_text}

digits-Printable : (fuel n : ℕ) (rest : Bytes) → Printable rest → Printable (digits fuel n ++ rest)
unfolding digits
digits-Printable zero n rest p = p
digits-Printable (suc fuel) n rest p = elim (Bool-cases (ltb n 10)) [
  | inl e ↦ rw e (ascii-Printable (b'0' + n) rest (omega arith) (ground arith) p)
  | inr e ↦
      rw (e, append_assoc)
        (digits-Printable fuel (n / 10) _
          (ascii-Printable (b'0' + n % 10) rest (omega arith) (omega arith) p))
]

length-digits : (fuel k n : ℕ) → n < 10 ^ suc k → length (digits fuel n) ≤ suc k
unfolding digits
length-digits zero k n h = omega arith
length-digits (suc fuel) zero n h = ground arith
length-digits (suc fuel) (suc k) n h = ground (
  arith,
  length-append (digits fuel (n / 10)) ((b'0' + n % 10) ∷ []),
  length-digits fuel k (n / 10),
)

-- The number that a text of digits stands for.
abbrev pub value : ℕ → Bytes → ℕ
value acc [] = acc
value acc (c ∷ s) = value (acc * 10 + (c - b'0')) s

value-append :
    (acc : ℕ) (s : Bytes) (c : ℕ) → value acc (s ++ c ∷ []) ≡ value acc s * 10 + (c - b'0')
value-append acc [] c = refl
value-append acc (d ∷ s) c = value-append (acc * 10 + (d - b'0')) s c

digits-value : (fuel n : ℕ) → n < fuel → value 0 (digits fuel n) ≡ n
unfolding digits
digits-value zero n h = absurd (omega arith)
digits-value (suc fuel) n h = elim (Bool-cases (ltb n 10)) [
  | inl e ↦ rw e (omega arith)
  | inr e ↦
      rw (e, value-append 0 (digits fuel (n / 10)) (b'0' + n % 10))
        (omega (arith, digits-value fuel (n / 10) (ground arith)))
]

-- The number in a note is the one that it was made of.
decimal-value : (n : ℕ) → value 0 (decimal n) ≡ n
unfolding decimal
decimal-value n = digits-value (suc n) n (omega arith)

-- ASCII in front.
ascii_text-Printable :
    (s rest : Bytes) → All (λ c. (0x20 ≤ c) × (c < 0x7f)) s → Printable rest → Printable (s ++ rest)
ascii_text-Printable [] rest h p = p
ascii_text-Printable (c ∷ s) rest h p =
    ascii-Printable c (s ++ rest) h.0.0 h.0.1 (ascii_text-Printable s rest h.1 p)

note-Printable : (n : ℕ) (rest : Bytes) → Printable rest → Printable (note n ++ rest)
unfolding note decimal
note-Printable n rest p =
    rw
      (
        append_assoc (codes "... (truncated, ") (digits (suc n) n ++ codes " bytes)") rest,
        append_assoc (digits (suc n) n) (codes " bytes)") rest,
      )
      (ascii_text-Printable (codes "... (truncated, ") _ (omega arith) (
        digits-Printable (suc n) n _ (ascii_text-Printable (codes " bytes)") rest (omega arith) p)))

-- An int is below 2 ^ 63.
length-note : (n : ℕ) → n < 2 ^ 63 → length (note n) ≤ 42
unfolding note decimal
length-note n h = omega (
  arith,
  length-append (codes "... (truncated, ") (digits (suc n) n ++ codes " bytes)"),
  length-append (digits (suc n) n) (codes " bytes)"),
  length-digits (suc n) 18 n (omega arith),
)

bounded_text-Printable : (raw rest : Bytes) → Printable rest → Printable (bounded_text raw ++ rest)
unfolding bounded_text
bounded_text-Printable raw rest p =
    let (s, truncated) = escape_bounded raw max_step_err_len in
    elim (Bool-cases (escape_bounded raw max_step_err_len).1) [
      | inl e ↦
          rw (e, append_assoc)
            (escape_bounded-Printable_append raw max_step_err_len _
              (note-Printable (length raw) rest p))
      | inr e ↦ rw e (escape_bounded-Printable_append raw max_step_err_len rest p)
    ]

length-escape_bounded : (s : Bytes) (limit : ℕ) → length (escape_bounded s limit).0 ≤ limit
length-escape_bounded s limit = elim (escape_bounded-Cuts s limit) [
  | inl (_, _, h) ↦ h
  | inr (_, _, _, _, _, _, h, _) ↦ h
]

length-bounded_text : (raw : Bytes) → length raw < 2 ^ 63 → length (bounded_text raw) ≤ 554
unfolding bounded_text
length-bounded_text raw h = ground (
  arith,
  length-append (escape_bounded raw max_step_err_len).0 (note (length raw)),
  length-note (length raw),
  length-escape_bounded raw max_step_err_len,
)

abbrev pub Fits : Option Bytes → Type 0
Fits none = Unit {0}
Fits (some raw) = length raw < 2 ^ 63

-- The truncation note carries the length of the whole text.
bounded_text_note :
    (raw : Bytes)
    → let (s, truncated) = escape_bounded raw max_step_err_len in
      ((truncated ≡ false) × (bounded_text raw ≡ s))
      ⊎ ((number : Bytes) × (truncated ≡ true)
          × (bounded_text raw ≡ s ++ (codes "... (truncated, " ++ (number ++ codes " bytes)")))
          × (value 0 number ≡ length raw))
unfolding bounded_text note
bounded_text_note raw = elim (Bool-cases (escape_bounded raw max_step_err_len).1) [
  | inl e ↦ inr (decimal (length raw), e, rw e, decimal-value (length raw))
  | inr e ↦ inl (e, rw e)
]

bounded_text-Printable_whole : (raw : Bytes) → Printable (bounded_text raw)
bounded_text-Printable_whole raw =
    subst Printable (append-nil (bounded_text raw)) (bounded_text-Printable raw [] nil)

one_step :
    (raw s : Bytes) → length raw < 2 ^ 63 → bounded_text raw ≡ s → Printable s × (length s ≤ 1110)
one_step raw s h e =
    rw (← e) (bounded_text-Printable_whole raw, omega (arith, length-bounded_text raw h))

-- Whatever a broker sent, the text of a teardown error is one printable line of at most 1110 bytes,
-- two renderings of at most 512 bytes with their notes and the separator between them.
pub step_text_bounds :
    (u d : Option Bytes) (s : Bytes)
    → Fits u
    → Fits d
    → step_text u d ≡ some s
    → Printable s × (length s ≤ 1110)
unfolding step_text
step_text_bounds (some u) (some d) s hu hd h =
    let e : bounded_text u ++ (codes "; " ++ bounded_text d) ≡ s = cc in
    rw (← e) (
      bounded_text-Printable u _
          (ascii_text-Printable (codes "; ") _ (omega arith) (bounded_text-Printable_whole d)),
      omega (
        arith,
        length-append (bounded_text u) (codes "; " ++ bounded_text d),
        length-bounded_text u hu,
        length-bounded_text d hd,
      ),
    )
step_text_bounds (some u) none s hu hd h = one_step u s hu (cc)
step_text_bounds none (some d) s hu hd h = one_step d s hd (cc)
step_text_bounds none none s hu hd h = cc
