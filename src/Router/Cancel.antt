-- ===== src/Router/Cancel.antt =====
-- internal/router/router.go: Close cancels the subscription of every reader that it waits for.
use mathlib.Core.List.{Memᴰ}
use gridappsd_go.Common.{
  ℕ, ◌≤◌, ◌<◌, length, Bytes, Bytes-discrete, true, false, List, [], ◌∷◌, ◌++◌, Option, none, some,
  ℕ_discrete, if_rule, ◌≡◌, refl, ap, ◌∙◌, ◌⊎◌, inl, inr, arith,
}
use gridappsd_go.Common.Maps.{lookup, delete, lookup-insert, lookup-delete}
use gridappsd_go.GoError.{GoError, Result}
use gridappsd_go.Router.{
  Phase, marked, Router, DestState, lookup_dest, live_state, set_handlers, spawn, drop_dest,
  draw_token, subscribe, unsubscribe_locked, close_locked, live_subs, new_with_error_chan,
}
use gridappsd_go.Router.Reader.{
  message, failure, closed, receive, set_phase, mark_done, deregister, report,
}
use gridappsd_go.Router.Registry.{subscribe_rule}
use gridappsd_go.Router.Removal.{unsubscribe_rule}
use gridappsd_go.Router.Step.{
  Step, subscribes, unsubscribes, closes, receives, marks, deregisters, reports, consumes, Reach,
  start, later,
}
use gridappsd_go.Router.Exit.{is_registered-cases}
use gridappsd_go.Router.Invariant.{Inv, is_marked}
use gridappsd_go.Router.Invariant.Readers.{Reach-Inv}

-- The subscription that an Unsubscribe cancels.
abbrev pub one_sub : Option ℕ → List ℕ
one_sub none = []
one_sub (some sub) = sub ∷ []

mem-append : (x : ℕ) (xs ys : List ℕ) → Memᴰ x ys → Memᴰ x (xs ++ ys)
mem-append x [] ys m = m
mem-append x (y ∷ xs) ys m = Memᴰ.tail (mem-append x xs ys m)

mem-append_left : (x : ℕ) (xs ys : List ℕ) → Memᴰ x xs → Memᴰ x (xs ++ ys)
mem-append_left x [] ys m = elim m [ ]
mem-append_left x (y ∷ xs) ys (Memᴰ.head e) = Memᴰ.head e
mem-append_left x (y ∷ xs) ys (Memᴰ.tail m) = Memᴰ.tail (mem-append_left x xs ys m)

module _ {H : Type 0} where
  -- The subscriptions that a step gives up, which its caller then unsubscribes.
  unfoldable pub cancels : {r s : Router H} → Step r s → List ℕ
  cancels (subscribes f dest h small) = []
  cancels {r} (unsubscribes dest tok) = one_sub (unsubscribe_locked dest tok r).1
  cancels {r} closes = (close_locked r).1
  cancels (receives i m lt e) = []
  cancels (marks i t e) = []
  cancels (deregisters i t e) = []
  cancels (reports others i t within e) = []
  cancels (consumes e q f) = []

  unfoldable pub cancelled : {q : List GoError} {cap : ℕ} {r : Router H} → Reach q cap r → List ℕ
  cancelled start = []
  cancelled (later reach step) = cancels step ++ cancelled reach

  -- A reader that has not closed `done` is registered, or its subscription was cancelled.
  abbrev pub Held : Router H → List ℕ → Type 0
  Held r cs =
      (i : ℕ)
      → i < r.spawned
      → (r.states i).done ≡ false
      → (lookup_dest (r.readers i).dest r.dests ≡ some i) ⊎ Memᴰ (r.states i).sub cs

  mem-live_subs :
      (states : ℕ → DestState H) (d : Bytes) (i : ℕ) (m : List (Bytes × ℕ))
      → lookup Bytes-discrete d m ≡ some i
      → (states i).done ≡ false
      → Memᴰ (states i).sub (live_subs states m)
  unfolding lookup live_subs
  mem-live_subs states d i [] e live = cc
  mem-live_subs states d i ((d', j) ∷ m) e live = elim (Bytes-discrete d' d) [
    | yes same ↦ let own : j ≡ i = ground arith in rw (own, live) (Memᴰ.head refl)
    | no other ↦
        let rest = mem-live_subs states d i m (ground arith) live in
        if_rule (Memᴰ (states i).sub) (states j).done (λ _. rest) (λ _. Memᴰ.tail rest)
  ]

  attach-Held :
      (r : Router H) (i : ℕ) (hs : List (ℕ × H)) (cs : List ℕ)
      → Held r cs
      → Held (set_handlers r i hs) cs
  unfolding set_handlers
  attach-Held r i hs cs held j lt live = ground (arith, held j lt)

  spawn-Held :
      (r : Router H) (dest : Bytes) (sub tok : ℕ) (h : H) (cs : List ℕ)
      → live_state r dest ≡ none
      → Held r cs
      → Held (spawn r dest sub tok h) cs
  unfolding spawn lookup_dest live_state
  spawn-Held r dest sub tok h cs none_live held j lt live = elim (ℕ_discrete r.spawned j) [
    | yes same ↦ inl (ground (arith, lookup-insert Bytes-discrete dest dest r.spawned r.dests))
    | no other ↦ ground (
      arith,
      held j (omega arith),
      lookup-insert Bytes-discrete dest (r.readers j).dest r.spawned r.dests,
    )
  ]

  drop-Held :
      (r : Router H) (dest : Bytes) (i : ℕ) (cs : List ℕ)
      → lookup_dest dest r.dests ≡ some i
      → Held r cs
      → Held (drop_dest r dest i).0 (one_sub (drop_dest r dest i).1 ++ cs)
  unfolding drop_dest lookup_dest
  drop-Held r dest i cs found held j lt live = elim (held j lt live) [
    | inr m ↦ inr (mem-append (r.states j).sub (one_sub _) cs m)
    | inl e ↦ elim (Bytes-discrete dest (r.readers j).dest) [
      | no other ↦
          inl (ground (arith, lookup-delete Bytes-discrete dest (r.readers j).dest r.dests))
      | yes same ↦ let own : i ≡ j = ground arith in inr (rw (own, live) (Memᴰ.head refl))
    ]
  ]

  phase-Held :
      (r : Router H) (j : ℕ) (p : Phase) (cs : List ℕ) → Held r cs → Held (set_phase r j p) cs
  unfolding set_phase
  phase-Held r j p cs held i lt live = ground (arith, held i lt live)

  -- A reader that takes its own destination off the registry leaves the others there.
  unregister-Held :
      (r : Router H) (j : ℕ) (cs : List ℕ)
      → (r.states j).done ≡ true
      → lookup_dest (r.readers j).dest r.dests ≡ some j
      → Held r cs
      → Held (record r { dests = delete Bytes-discrete (r.readers j).dest r.dests }) cs
  unfolding lookup_dest
  unregister-Held r j cs gone found held i lt live = elim (held i lt live) [
    | inr m ↦ inr m
    | inl e ↦
        inl (
          ground
            (arith, lookup-delete Bytes-discrete (r.readers j).dest (r.readers i).dest r.dests))
  ]

  deregister-Held :
      (r : Router H) (j : ℕ) (t : Option GoError) (cs : List ℕ)
      → Inv r
      → (r.readers j).phase ≡ marked t
      → Held r cs
      → Held (deregister r j t) cs
  unfolding deregister
  deregister-Held r j t cs inv e held =
      let gone : (r.states j).done ≡ true = inv.done_marked j ∙ ap is_marked e in
      elim (is_registered-cases r j) [
        | inl (reg, found) ↦
            rw (reg, deregister) (phase-Held _ j _ cs (unregister-Held r j cs gone found held))
        | inr (reg, _) ↦ rw (reg, deregister) (phase-Held r j _ cs held)
      ]

  Step-Held :
      {r s : Router H} {cs : List ℕ} (step : Step r s)
      → Inv r
      → Held r cs
      → Held s (cancels step ++ cs)
  unfolding subscribe draw_token cancels
  Step-Held {r} {s} {cs} (subscribes f dest h small) inv held =
      subscribe_rule (λ (p : Router H × Result ℕ). Held p.0 cs) f _ dest h (draw_token r)
        (λ i e. attach-Held (draw_token r) i _ cs held) (λ e x. held)
        (λ sub x e. spawn-Held (draw_token r) dest sub _ h cs e held)
  Step-Held {r} {s} {cs} (unsubscribes dest tok) inv held =
      unsubscribe_rule (λ p. Held p.0 (one_sub p.1 ++ cs)) dest tok r (λ e. held)
        (λ i h hs e f. attach-Held r i _ cs held)
        (λ i e f.
          drop-Held (set_handlers r i []) dest i cs (unfold set_handlers in e)
            (attach-Held r i [] cs held))
  Step-Held {r} {s} {cs} closes inv held =
      unfold close_locked in
      λ i lt live. elim (held i lt live) [
        | inl e ↦ inr (
            mem-append_left _ _ cs
              (mem-live_subs r.states (r.readers i).dest i r.dests (unfold lookup_dest in e) live))
        | inr m ↦ inr (mem-append _ (live_subs r.states r.dests) cs m)
      ]
  Step-Held {r} (receives j (message body) lt' e) inv held = unfold receive in held
  Step-Held {r} (receives j (failure x) lt' e) inv held =
      unfold receive set_phase in λ i lt live. ground (arith, held i lt live)
  Step-Held {r} (receives j closed lt' e) inv held =
      unfold receive set_phase in λ i lt live. ground (arith, held i lt live)
  Step-Held {r} (marks j t e) inv held =
      unfold mark_done set_phase in λ i lt live. ground (arith, held i lt)
  Step-Held {r} {s} {cs} (deregisters j t e) inv held = deregister-Held r j t cs inv e held
  Step-Held {r} (reports others j none within e) inv held =
      unfold report set_phase in λ i lt live. ground (arith, held i lt live)
  Step-Held {r} (reports others j (some x) within e) inv held =
      unfold report set_phase in λ i lt live. ground (arith, held i lt live)
  Step-Held (consumes e q f) inv held = held

  Reach-Held :
      {q : List GoError} {cap : ℕ} {r : Router H}
      → length q ≤ cap
      → (reach : Reach q cap r) → Held r (cancelled reach)
  unfolding cancelled
  Reach-Held within start = unfold new_with_error_chan in λ i lt live. absurd (omega arith)
  Reach-Held within (later reach step) =
      Step-Held step (Reach-Inv within reach) (Reach-Held within reach)

  -- Once Close has had the lock, every reader that has not closed `done` has had its subscription
  -- given up to be unsubscribed, by this Close or by an Unsubscribe or Close before it, in every
  -- interleaving; and no destination is registered.
  pub close-Cancels :
      {q : List GoError} {cap : ℕ} {r : Router H} (i : ℕ)
      → length q ≤ cap
      → (reach : Reach q cap r) → i < r.spawned
      → (r.states i).done ≡ false
      → let (s, subs) = close_locked r in
        (s.dests ≡ [])
        × ((s.states i).done ≡ false)
        × Memᴰ (s.states i).sub (subs ++ cancelled reach)
  unfolding close_locked
  close-Cancels {q} {cap} {r} i within reach lt live = (
    refl,
    live,
    elim (Step-Held closes (Reach-Inv within reach) (Reach-Held within reach) i lt live) [
      | inl e ↦ absurd (unfold lookup_dest lookup in cc)
      | inr m ↦ unfold cancels in m
    ],
  )
