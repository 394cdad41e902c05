-- ===== src/Router/Registry.antt =====
-- internal/router/router.go: what Subscribe, Unsubscribe and Close do to the registry.
use gridappsd_go.Common.{
  ℕ, Bytes, Bytes-discrete, false, [], ◌∷◌, none, some, ℕ_discrete, ◌≡◌, refl, ◌⊎◌, inl, inr, arith,
  Option-cases,
}
use gridappsd_go.Common.Maps.{lookup, insert, lookup-insert}
use gridappsd_go.GoError.{GoError, errorf_w, Result, ok, err, Result-cases}
use gridappsd_go.Router.{Router, lookup_dest, live_state, set_handlers, spawn, subscribe_locked}

module _ {H : Type 0} where
  -- A handler that is registered at a destination whose state is not done, as Subscribe sees it. The
  -- reader of such a state may have left its loop already.
  abbrev pub Attached : Router H → Bytes → ℕ → H → Type 0
  Attached r dest tok h =
      (i : ℕ) × (lookup_dest dest r.dests ≡ some i)
      × ((r.states i).done ≡ false)
      × (lookup ℕ_discrete tok (r.states i).handlers ≡ some h)

  pub live_state-some :
      (r : Router H) (dest : Bytes) (i : ℕ)
      → live_state r dest ≡ some i
      → (lookup_dest dest r.dests ≡ some i) × ((r.states i).done ≡ false)
  unfolding live_state
  live_state-some r dest i h = ground arith

  -- Attaching to a live destination.
  attach :
      (r : Router H) (dest : Bytes) (tok i : ℕ) (h : H)
      → live_state r dest ≡ some i
      → Attached (set_handlers r i (insert ℕ_discrete tok h (r.states i).handlers)) dest tok h
  unfolding set_handlers
  attach r dest tok i h e =
      let (found, alive) = live_state-some r dest i e in
      let handlers = (r.states i).handlers in
      (i, found, ground arith, ground (arith, lookup-insert ℕ_discrete tok tok h handlers))

  -- A destination that has no live state gets a new one.
  attach_new :
      (r : Router H) (dest : Bytes) (sub tok : ℕ) (h : H)
      → Attached (spawn r dest sub tok h) dest tok h
  unfolding spawn lookup_dest lookup
  attach_new r dest sub tok h = (
    r.spawned,
    ground (arith, lookup-insert Bytes-discrete dest dest r.spawned r.dests),
    ground arith,
    ground arith,
  )

  abbrev pub Subscribed :
      (Bytes → Result ℕ) → ℕ → Bytes → H → Router H → Router H × Result ℕ → Type 0
  Subscribed conn_subscribe tok dest h r (r', result) =
      ((result ≡ ok tok) × Attached r' dest tok h)
      ⊎ ((e : GoError) × (conn_subscribe dest ≡ err e)
          × (result ≡ err (errorf_w "router: subscribe %q: %w" (dest ∷ []) e))
          × (r' ≡ r))

  -- The branches of Subscribe.
  pub subscribe_rule {ℓ} :
      (P : Router H × Result ℕ → Type ℓ) (conn_subscribe : Bytes → Result ℕ) (tok : ℕ)
      (dest : Bytes) (h : H) (r : Router H)
      → ((i : ℕ)
          → live_state r dest ≡ some i
          → P (set_handlers r i (insert ℕ_discrete tok h (r.states i).handlers), ok tok))
      → ((e : GoError)
          → conn_subscribe dest ≡ err e
          → P (r, err (errorf_w "router: subscribe %q: %w" (dest ∷ []) e)))
      → ((sub : ℕ)
          → conn_subscribe dest ≡ ok sub
          → live_state r dest ≡ none
          → P (spawn r dest sub tok h, ok tok))
      → P (subscribe_locked conn_subscribe tok dest h r)
  unfolding subscribe_locked
  subscribe_rule P conn_subscribe tok dest h r live failed new =
      elim (Option-cases (live_state r dest)) [
        | inr (i, e) ↦ rw (e, subscribe_locked) (live i e)
        | inl e ↦
            rw (e, subscribe_locked)
              (elim (Result-cases (conn_subscribe dest)) [
                | inl (x, f) ↦ rw (f, subscribe_locked) (failed x f)
                | inr (sub, f) ↦ rw (f, subscribe_locked) (new sub f e)
              ])
      ]

  -- A Subscribe that succeeds returns the token that it drew, and its handler then hangs on a state
  -- that is not done; one that fails leaves the registry as it was.
  subscribe_locked-Attached :
      (conn_subscribe : Bytes → Result ℕ) (tok : ℕ) (dest : Bytes) (h : H) (r : Router H)
      → Subscribed conn_subscribe tok dest h r (subscribe_locked conn_subscribe tok dest h r)
  subscribe_locked-Attached conn_subscribe tok dest h r =
      subscribe_rule (Subscribed conn_subscribe tok dest h r) conn_subscribe tok dest h r
        (λ i e. inl (refl, attach r dest tok i h e)) (λ e f. inr (e, f, refl, refl))
        (λ sub f e. inl (refl, attach_new r dest sub tok h))
