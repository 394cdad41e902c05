-- ===== src/Escape/RoundTrip.antt =====
-- A rendering of escape_bounded, read back, is a beginning of the broker's text.
use gridappsd_go.Common.{
  ℕ, zero, suc, ◌≤◌, ◌<◌, ◌≡◌, refl, sym, ap, subst, ◌∙◌, ◌≢◌, inl, inr, ◌↔◌, Bytes, Bool, false,
  List, [], ◌∷◌, ◌++◌, length, take, drop, take-append-drop, length-drop, All, All-right,
  append-nil, append_assoc, arith,
}
use gridappsd_go.Utf8.{decode_rune}
use gridappsd_go.Utf8.Canonical.{decode_rune_size, decode_rune-Canonical}
use gridappsd_go.Escape.{next_token, escape_bounded}
use gridappsd_go.Escape.Tokens.{tokens, join, Cuts, escape_bounded-Cuts}
use gridappsd_go.Escape.Unescape.{plain, unescape, Stands, escape_token-Stands}

abbrev pub AreBytes : Bytes → Type 0
AreBytes = All (λ c. c < 256)

drop-AreBytes : (n : ℕ) (s : Bytes) → AreBytes s → AreBytes (drop n s)
drop-AreBytes zero s h = h
drop-AreBytes (suc n) [] h = tt
drop-AreBytes (suc n) (c ∷ s) h = drop-AreBytes n s h.1

next_token-Stands :
    (c : ℕ) (s : Bytes) → c < 256 → Stands (next_token c s).0 (take (next_token c s).1 (c ∷ s))
unfolding next_token
next_token-Stands c s h rest =
    escape_token-Stands c s h (decode_rune (c ∷ s)).0 (decode_rune (c ∷ s)).1
      (decode_rune-Canonical c s) rest

next_token_size : (c : ℕ) (s : Bytes) → 1 ≤ (next_token c s).1
unfolding next_token
next_token_size c s = decode_rune_size c s

-- The fuel suffices: the tokens of a text stand for all of it.
unescape-tokens :
    (fuel : ℕ) (s : Bytes)
    → length s ≤ fuel
    → AreBytes s
    → unescape plain (join (tokens fuel s)) ≡ s
unfolding tokens join
unescape-tokens zero [] h b = unfold unescape in refl
unescape-tokens zero (c ∷ s) h b = absurd (omega arith)
unescape-tokens (suc fuel) [] h b = unfold unescape in refl
unescape-tokens (suc fuel) (c ∷ s) h b =
    let n = (next_token c s).1 in
    next_token-Stands c s b.0 (join (tokens fuel (drop n (c ∷ s))))
    ∙ ap (◌++◌ (take n (c ∷ s))) (
        unescape-tokens fuel (drop n (c ∷ s))
          (omega (arith, length-drop n (c ∷ s), next_token_size c s)) (drop-AreBytes n (c ∷ s) b))
    ∙ take-append-drop n (c ∷ s)

abbrev IsToken : Bytes → Type 0
IsToken t = (raw : Bytes) × (raw ≢ []) × Stands t raw

take_some : (n c : ℕ) (s : Bytes) → 1 ≤ n → take n (c ∷ s) ≢ []
take_some zero c s h e = omega arith
take_some (suc n) c s h e = cc

tokens-IsToken : (fuel : ℕ) (s : Bytes) → AreBytes s → All IsToken (tokens fuel s)
unfolding tokens
tokens-IsToken zero s b = tt
tokens-IsToken (suc fuel) [] b = tt
tokens-IsToken (suc fuel) (c ∷ s) b =
    let n = (next_token c s).1 in
    (
      (take n (c ∷ s), take_some n c s (next_token_size c s), next_token-Stands c s b.0),
      tokens-IsToken fuel (drop n (c ∷ s)) (drop-AreBytes n (c ∷ s) b),
    )

unescape-join :
    (ts us : List Bytes)
    → All IsToken (ts ++ us)
    → unescape plain (join (ts ++ us)) ≡ unescape plain (join ts) ++ unescape plain (join us)
unfolding join
unescape-join [] us h = unfold unescape in refl
unescape-join (t ∷ ts) us ((raw, _, stands), h) =
    stands (join (ts ++ us))
    ∙ ap (◌++◌ raw) (unescape-join ts us h)
    ∙ sym (append_assoc raw _ _)
    ∙ ap (λ x. x ++ unescape plain (join us)) (sym (stands (join ts)))

head_some : (t : Bytes) (ts : List Bytes) → IsToken t → unescape plain (join (t ∷ ts)) ≢ []
unfolding join
head_some t ts ([], some_raw, stands) e = some_raw refl
head_some t ts (c ∷ raw, some_raw, stands) e = cc (stands (join ts))

-- What is left of a text once the rendering has been read back.
abbrev pub ReadsBack : Bytes → Bytes × Bool → Type 0
ReadsBack s (out, truncated) =
    (left : Bytes) × (unescape plain out ++ left ≡ s) × ((truncated ≡ false) ↔ (left ≡ []))

Cuts-ReadsBack :
    (s : Bytes) (limit : ℕ) (r : Bytes × Bool)
    → AreBytes s
    → Cuts limit [] (tokens (length s) s) r
    → ReadsBack s r
Cuts-ReadsBack s limit (out, truncated) b (inl (e, q, _)) = (
  [],
  append-nil _ ∙ ap (unescape plain) q ∙ unescape-tokens (length s) s (omega arith) b,
  ((λ _. refl), (λ _. e)),
)
Cuts-ReadsBack s limit (out, truncated) b (inr (kept, tok, left, e, p, q, _, _)) = (
  unescape plain (join (tok ∷ left)),
  whole,
  ((λ f. cc), (λ f. absurd (head_some tok left (All-right IsToken kept (tok ∷ left) are).0 f))),
)
  where
    are : All IsToken (kept ++ tok ∷ left)
    are = subst (All IsToken) p (tokens-IsToken (length s) s b)

    whole : unescape plain out ++ unescape plain (join (tok ∷ left)) ≡ s
    whole =
        ap (λ o. unescape plain o ++ unescape plain (join (tok ∷ left))) q
        ∙ sym (unescape-join kept (tok ∷ left) are)
        ∙ ap (λ ts. unescape plain (join ts)) (sym p)
        ∙ unescape-tokens (length s) s (omega arith) b

-- Nothing is lost or invented: the rendering reads back to a beginning of the text, and to all of
-- it exactly when it is not marked as truncated.
pub escape_bounded-ReadsBack :
    (s : Bytes) (limit : ℕ) → AreBytes s → ReadsBack s (escape_bounded s limit)
escape_bounded-ReadsBack s limit b = Cuts-ReadsBack s limit _ b (escape_bounded-Cuts s limit)
