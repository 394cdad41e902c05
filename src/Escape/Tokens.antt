-- ===== src/Escape/Tokens.antt =====
-- The tokens of a text, and how escape_bounded cuts between them.
use gridappsd_go.Common.{
  ℕ, zero, suc, ◌+◌, ◌≤◌, ◌<◌, ◌≡◌, refl, ◌⊎◌, inl, inr, Bytes, Bool, true, false, List, [], ◌∷◌,
  ◌++◌, length, drop, length-append, append-nil, append_assoc, arith, Bool-cases, ltb, ltb→lt, ap,
  ◌∙◌,
}
use gridappsd_go.Escape.{next_token, escape_loop, escape_bounded}

-- The tokens of the whole text, with no limit.
unfoldable pub tokens : ℕ → Bytes → List Bytes
tokens zero s = []
tokens (suc fuel) [] = []
tokens (suc fuel) (c ∷ s) =
    let (tok, size) = next_token c s in tok ∷ tokens fuel (drop size (c ∷ s))

unfoldable pub join : List Bytes → Bytes
join [] = []
join (t ∷ ts) = t ++ join ts

-- All tokens fit, or the output holds those before the first one that does not.
abbrev pub Cuts : ℕ → Bytes → List Bytes → Bytes × Bool → Type 0
Cuts limit built ts (out, truncated) =
    ((truncated ≡ false) × (out ≡ built ++ join ts) × (length out ≤ limit))
    ⊎ ((kept : List Bytes) × (tok : Bytes) × (left : List Bytes) × (truncated ≡ true)
        × (ts ≡ kept ++ tok ∷ left)
        × (out ≡ built ++ join kept)
        × (length out ≤ limit)
        × (limit < length out + length tok))

Cuts-cons :
    (limit : ℕ) (built tok : Bytes) (ts : List Bytes) (r : Bytes × Bool)
    → Cuts limit (built ++ tok) ts r
    → Cuts limit built (tok ∷ ts) r
unfolding join
Cuts-cons limit built tok ts (out, truncated) (inl (e, q, l)) =
    inl (e, q ∙ append_assoc built tok (join ts), l)
Cuts-cons limit built tok ts (out, truncated) (inr (kept, t, left, e, p, q, l, o)) =
    inr (tok ∷ kept, t, left, e, ap (◌∷◌ tok) p, q ∙ append_assoc built tok (join kept), l, o)

escape_loop-Cuts :
    (fuel limit : ℕ) (built s : Bytes)
    → length built ≤ limit
    → Cuts limit built (tokens fuel s) (escape_loop fuel limit built s)
unfolding escape_loop tokens join
escape_loop-Cuts zero limit built s h = inl (refl, simp append-nil, h)
escape_loop-Cuts (suc fuel) limit built [] h = inl (refl, simp append-nil, h)
escape_loop-Cuts (suc fuel) limit built (c ∷ s) h =
    let (tok, size) = next_token c s in
    let fits = length-append built tok in
    let rest : length (built ++ tok) ≤ limit
        → Cuts limit (built ++ tok) (tokens fuel (drop size (c ∷ s)))
            (escape_loop fuel limit (built ++ tok) (drop size (c ∷ s))) =
      escape_loop-Cuts fuel limit (built ++ tok) (drop size (c ∷ s)) in
    elim (Bool-cases (ltb limit (length built + length tok))) [
      | inl over ↦ rw over (
          inr (
            [],
            tok,
            tokens fuel (drop size (c ∷ s)),
            refl,
            refl,
            simp append-nil,
            h,
            ltb→lt _ _ over,
          ))
      | inr fit ↦ rw fit (
          Cuts-cons limit built tok (tokens fuel (drop size (c ∷ s))) _
            (rest (ground (arith, fits))))
    ]

-- The rendering is at most `limit` bytes, ends at a token's end, and is complete unless the flag
-- says that something was left out; then the next token would not have fitted.
pub escape_bounded-Cuts :
    (s : Bytes) (limit : ℕ) → Cuts limit [] (tokens (length s) s) (escape_bounded s limit)
unfolding escape_bounded
escape_bounded-Cuts s limit = escape_loop-Cuts (length s) limit [] s (omega arith)
