-- ===== src/Router/Removal.antt =====
-- internal/router/router.go: Unsubscribe removes one handler, Close all of them.
use gridappsd_go.Common.{
  ℕ, Bytes, Bytes-discrete, List, [], ◌∷◌, Option, none, some, ite, ℕ_discrete, ◌≡◌, ◌≢◌, ◌⊎◌, inl,
  inr, arith, Option-cases, List-cases,
}
use gridappsd_go.Common.Maps.{lookup, delete, lookup-delete}
use gridappsd_go.Router.{Router, lookup_dest, set_handlers, drop_dest, unsubscribe_locked}
use gridappsd_go.Router.Registry.{Attached}

module _ {H : Type 0} where
  -- No two destinations share a state.
  abbrev pub Apart : Router H → Type 0
  Apart r =
      (d d' : Bytes) (i : ℕ)
      → lookup_dest d r.dests ≡ some i
      → lookup_dest d' r.dests ≡ some i
      → d ≡ d'

  pub drop_dest-lookup :
      (r : Router H) (dest d : Bytes) (i : ℕ)
      → lookup_dest d (drop_dest r dest i).0.dests
        ≡ ite (Bytes-discrete dest d) none (lookup_dest d r.dests)
  unfolding drop_dest lookup_dest
  drop_dest-lookup r dest d i = lookup-delete Bytes-discrete dest d r.dests

  -- The branches of Unsubscribe.
  pub unsubscribe_rule {ℓ} :
      (P : Router H × Option ℕ → Type ℓ) (dest : Bytes) (tok : ℕ) (r : Router H)
      → (lookup_dest dest r.dests ≡ none → P (r, none))
      → ((i : ℕ) (h : ℕ × H) (hs : List (ℕ × H))
          → lookup_dest dest r.dests ≡ some i
          → delete ℕ_discrete tok (r.states i).handlers ≡ h ∷ hs
          → P (set_handlers r i (h ∷ hs), none))
      → ((i : ℕ)
          → lookup_dest dest r.dests ≡ some i
          → delete ℕ_discrete tok (r.states i).handlers ≡ []
          → P (drop_dest (set_handlers r i []) dest i))
      → P (unsubscribe_locked dest tok r)
  unfolding unsubscribe_locked
  unsubscribe_rule P dest tok r unknown some_left last =
      elim (Option-cases (lookup_dest dest r.dests)) [
        | inl e ↦ rw (e, unsubscribe_locked) (unknown e)
        | inr (i, e) ↦
            rw (e, unsubscribe_locked)
              (elim (List-cases (delete ℕ_discrete tok (r.states i).handlers)) [
                | inl f ↦ rw (f, unsubscribe_locked) (last i e f)
                | inr (h, hs, f) ↦ rw (f, unsubscribe_locked) (some_left i h hs e f)
              ])
      ]

  -- Unsubscribe of a token leaves no handler under it.
  unsubscribe_removes :
      (r : Router H) (dest : Bytes) (tok : ℕ) (h : H)
      → ¬ Attached (unsubscribe_locked dest tok r).0 dest tok h
  unsubscribe_removes r dest tok h =
      unsubscribe_rule (λ p. ¬ Attached p.0 dest tok h) dest tok r (λ e (i, found, _, _). cc)
        (λ i x xs e f (j, found, _, held).
          unfold set_handlers in
          ground (arith, lookup-delete ℕ_discrete tok tok (r.states i).handlers))
        (λ i e f (j, found, _, _).
          ground (arith, drop_dest-lookup (set_handlers r i []) dest dest i))

  -- Every other handler stays: at another destination, or under another token.
  unsubscribe_keeps :
      (r : Router H) (dest d : Bytes) (tok t : ℕ) (h : H)
      → Apart r
      → (d ≢ dest) ⊎ (t ≢ tok)
      → Attached r d t h
      → Attached (unsubscribe_locked dest tok r).0 d t h
  unsubscribe_keeps r dest d tok t h apart other (k, found, alive, held) =
      unsubscribe_rule (λ p. Attached p.0 d t h) dest tok r (λ e. (k, found, alive, held))
        (λ i x xs e f.
          unfold set_handlers in
          (
            k,
            found,
            ground arith,
            ground (arith, lookup-delete ℕ_discrete tok t (r.states i).handlers, apart d dest i),
          ))
        (λ i e f.
          unfold set_handlers drop_dest in
          (
            k,
            ground (arith, drop_dest-lookup (set_handlers r i []) dest d i, left i e f),
            ground arith,
            ground (arith, apart d dest i, left i e f),
          ))
    where
      left :
          (i : ℕ)
          → lookup_dest dest r.dests ≡ some i
          → delete ℕ_discrete tok (r.states i).handlers ≡ []
          → (i ≢ k) × (d ≢ dest)
      left i e f =
          unfold lookup in
          ground (arith, lookup-delete ℕ_discrete tok t (r.states i).handlers, apart d dest i)
