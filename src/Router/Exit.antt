-- ===== src/Router/Exit.antt =====
-- internal/router/router.go: how a reader leaves, whatever the other goroutines do between its steps,
-- and what it reports.
use gridappsd_go.Common.{
  ℕ, ◌≤◌, ◌<◌, length, Bytes, Bytes-discrete, Bool, true, false, List, [], ◌∷◌, ◌++◌, Option, none,
  some, if_neg, ℕ_discrete, ◌≡◌, ◌≢◌, refl, sym, subst, ◌⊎◌, inl, inr, arith,
}
use gridappsd_go.Common.Maps.{lookup-delete}
use gridappsd_go.GoError.{GoError, ErrorId, subscription_closed, value, errors_is, errorf_w, Result}
use gridappsd_go.Router.{
  Router, Phase, reading, stopped, marked, reporting, exited, lookup_dest, set_handlers, spawn,
  drop_dest, draw_token, subscribe, close_locked,
}
use gridappsd_go.Router.Reader.{
  message, failure, closed, receive, set_phase, mark_done, deregister, report, is_registered, cause,
  Others, publish_err,
}
use gridappsd_go.Router.Registry.{subscribe_rule}
use gridappsd_go.Router.Removal.{unsubscribe_rule}
use gridappsd_go.Router.Publish.{publish_err_through}
use gridappsd_go.Router.Step.{
  Step, subscribes, unsubscribes, closes, receives, marks, deregisters, reports, consumes,
}

-- What the end of a loop is to errors.Is, where the router did not ask for it.
abbrev pub end_error : Option GoError → GoError
end_error none = value subscription_closed
end_error (some e) = e

cause-registered :
    (dest : Bytes) (t : Option GoError)
    → (e : GoError) × (cause dest t true ≡ some e)
      × ((k : ErrorId) → errors_is k e ≡ errors_is k (end_error t))
unfolding cause errors_is
cause-registered dest none = (_, refl, (λ k. refl))
cause-registered dest (some e) = (e, refl, (λ k. refl))

cause-removed : (dest : Bytes) (t : Option GoError) → cause dest t false ≡ t
unfolding cause
cause-removed dest none = refl
cause-removed dest (some e) = refl

-- An error as a reader keeps it.
abbrev pub wrapped : Bytes → Option GoError → Option GoError
wrapped dest none = none
wrapped dest (some b) = some (errorf_w "router: subscription error on %q: %w" (dest ∷ []) b)

module _ {H : Type 0} where
  -- The reader whose step it is, but for a message, which leaves it where it is; and the error that
  -- it receives in it.
  abbrev pub mover : {r s : Router H} → Step r s → Option ℕ
  mover (receives j (message body) lt e) = none
  mover (receives j (failure x) lt e) = some j
  mover (receives j closed lt e) = some j
  mover (marks j t e) = some j
  mover (deregisters j t e) = some j
  mover (reports others j t within e) = some j
  mover (subscribes f dest h small) = none
  mover (unsubscribes dest tok) = none
  mover closes = none
  mover (consumes e q f) = none

  abbrev pub error_in : {r s : Router H} → Step r s → Option GoError
  error_in (receives j (failure x) lt e) = some x
  error_in _ = none

  -- How reader `i` moves on from a phase, between two routers, with the error that it receives. It
  -- stops with that error, wrapped, or with none as its channel closed; it closes `done`; under the
  -- lock it takes its destination off the registry if it still stands there, and only then is the
  -- end of the channel to be reported; a received error is reported in any case, and nothing else is.
  abbrev pub Next : Router H → Router H → ℕ → Option GoError → Phase → Type 0
  Next r s i x reading = (s.readers i).phase ≡ stopped (wrapped (r.readers i).dest x)
  Next r s i x (stopped t) = ((s.readers i).phase ≡ marked t) × ((s.states i).done ≡ true)
  Next r s i x (marked t) =
      ((lookup_dest (r.readers i).dest r.dests ≡ some i)
        × (lookup_dest (r.readers i).dest s.dests ≡ none)
        × (e : GoError) × ((s.readers i).phase ≡ reporting (some e))
        × ((k : ErrorId) → errors_is k e ≡ errors_is k (end_error t)))
      ⊎ ((lookup_dest (r.readers i).dest r.dests ≢ some i)
          × (s.dests ≡ r.dests)
          × ((s.readers i).phase ≡ reporting t))
  Next r s i x (reporting none) = ((s.readers i).phase ≡ exited) × (s.errs ≡ r.errs)
  Next r s i x (reporting (some e)) =
      ((s.readers i).phase ≡ exited)
      × (others : Others) × ((k : ℕ) (after : Bool) (p : List GoError)
          → length p ≤ r.err_cap
          → length (others k after p) ≤ r.err_cap)
      × (s.errs ≡ publish_err others e r.err_cap r.errs)
  Next r s i x exited = ⊥

  -- A reader moves on in its own steps and stays as it is in all others.
  abbrev pub Moves : Router H → Router H → ℕ → Option ℕ → Option GoError → Type 0
  Moves r s i m x =
      ((m ≡ some i) × Next r s i x (r.readers i).phase)
      ⊎ ((m ≢ some i) × (s.readers i ≡ r.readers i))

  -- A step of one reader.
  one-Moves :
      (r s : Router H) (j : ℕ) (x : Option GoError) (p : Phase)
      → ((i : ℕ) → j ≢ i → s.readers i ≡ r.readers i)
      → (r.readers j).phase ≡ p
      → Next r s j x p
      → (i : ℕ) → Moves r s i (some j) x
  one-Moves r s j x p keeps e next i = elim (ℕ_discrete j i) [
    | yes same ↦
        subst (λ k. Moves r s k (some j) x) same (inl (refl, subst (Next r s j x) (sym e) next))
    | no other ↦ inr ((λ q. other (ground (arith, q))), keeps i other)
  ]

  -- A step that is no reader's.
  none-Moves : (r s : Router H) (i : ℕ) → s.readers i ≡ r.readers i → Moves r s i none none
  none-Moves r s i e = inr ((λ q. cc), e)

  -- The change of a phase, by itself.
  set_phase-other :
      (r : Router H) (j : ℕ) (p : Phase) (i : ℕ) → j ≢ i → (set_phase r j p).readers i ≡ r.readers i
  unfolding set_phase
  set_phase-other r j p i other = if_neg (ℕ_discrete j i) other _ _

  set_phase-own : (r : Router H) (j : ℕ) (p : Phase) → ((set_phase r j p).readers j).phase ≡ p
  unfolding set_phase
  set_phase-own r j p = ground arith

  pub is_registered-cases :
      (r : Router H) (i : ℕ)
      → ((is_registered r i ≡ true) × (lookup_dest (r.readers i).dest r.dests ≡ some i))
        ⊎ ((is_registered r i ≡ false) × (lookup_dest (r.readers i).dest r.dests ≢ some i))
  unfolding is_registered
  is_registered-cases r i = ground arith

  deregister-Next :
      (r : Router H) (i : ℕ) (t : Option GoError) → Next r (deregister r i t) i none (marked t)
  unfolding deregister set_phase lookup_dest
  deregister-Next r i t =
      let dest = (r.readers i).dest in
      elim (is_registered-cases r i) [
        | inl (reg, found) ↦
            let (e, caused, same) = cause-registered dest t in
            inl (
              found,
              ground (arith, reg, lookup-delete Bytes-discrete dest dest r.dests),
              e,
              ground (arith, reg, caused),
              same,
            )
        | inr (reg, gone) ↦
            inr (gone, ground (arith, reg), ground (arith, reg, cause-removed dest t))
      ]

  -- In every step of the router, its readers and its callers, a reader moves on in its own steps as
  -- its phase says, and stays as it is in all others: so nothing that comes between two moves of a reader changes what it reports.
  pub Step-Moves :
      {r s : Router H} (i : ℕ) (step : Step r s)
      → i < r.spawned
      → Moves r s i (mover step) (error_in step)
  unfolding subscribe draw_token close_locked receive report set_handlers spawn drop_dest
  Step-Moves {r} i (subscribes f dest h small) lt =
      subscribe_rule (λ (p : Router H × Result ℕ). Moves r p.0 i none none) f _ dest h
        (draw_token r) (λ j e. inr ((λ q. cc), refl)) (λ e x. none-Moves r r i refl)
        (λ sub x e.
          none-Moves r (spawn (draw_token r) dest sub _ h) i
            (if_neg (ℕ_discrete r.spawned i) (λ q. absurd (omega arith)) _ _))
  Step-Moves {r} i (unsubscribes dest tok) lt =
      unsubscribe_rule (λ p. Moves r p.0 i none none) dest tok r (λ e. none-Moves r r i refl)
        (λ j h hs e f. none-Moves r (set_handlers r j (h ∷ hs)) i refl)
        (λ j e f. none-Moves r (drop_dest (set_handlers r j []) dest j).0 i refl)
  Step-Moves {r} {s} i closes lt = none-Moves r s i refl
  Step-Moves {r} {s} i (receives j (message body) lt' e) lt = none-Moves r s i refl
  Step-Moves {r} i (receives j (failure x) lt' e) lt =
      let p = stopped (wrapped (r.readers j).dest (some x)) in
      one-Moves r (set_phase r j p) j (some x) reading (set_phase-other r j p) e
        (set_phase-own r j p) i
  Step-Moves {r} i (receives j closed lt' e) lt =
      let p = stopped none in
      one-Moves r (set_phase r j p) j none reading (set_phase-other r j p) e (set_phase-own r j p) i
  Step-Moves {r} i (marks j t e) lt =
      one-Moves r (mark_done r j t) j none (stopped t) (unfold mark_done in set_phase-other _ j _) e
        (unfold mark_done in (set_phase-own _ j _, (unfold set_phase in ground arith))) i
  Step-Moves {r} i (deregisters j t e) lt =
      one-Moves r (deregister r j t) j none (marked t)
        (unfold deregister set_phase in λ k other. ground arith) e (deregister-Next r j t) i
  Step-Moves {r} i (reports others j none within e) lt =
      one-Moves r (set_phase r j exited) j none (reporting none) (set_phase-other r j _) e
        (set_phase-own r j _, (unfold set_phase in refl)) i
  Step-Moves {r} i (reports others j (some x) within e) lt =
      let told : Router H = record r { errs = publish_err others x r.err_cap r.errs } in
      one-Moves r (set_phase told j exited) j none (reporting (some x))
        (set_phase-other told j exited) e
        (set_phase-own told j exited, others, within, (unfold set_phase in refl)) i
  Step-Moves {r} {s} i (consumes e q f) lt = none-Moves r s i refl

  -- A broker's error frame: the reader calls no handler and stops with an error in which errors.Is
  -- finds what it finds in the broker's. When it reports that error, on whatever router it then is,
  -- the error is queued last, if the channel has a buffer and the other goroutines meanwhile only
  -- read from it.
  pub failure_heard :
      (others : Others) (r later : Router H) (i : ℕ) (b : GoError)
      → ((k : ℕ) (after : Bool) (p : List GoError) → length (others k after p) ≤ length p)
      → 0 < later.err_cap
      → length later.errs ≤ later.err_cap
      → let (s, calls) = receive r i (failure b) in
        (calls ≡ [])
        × (e : GoError) × ((s.readers i).phase ≡ stopped (some e))
        × ((k : ErrorId) → errors_is k e ≡ errors_is k b)
        × (before : List GoError) × ((report others later i (some e)).errs ≡ before ++ e ∷ [])
  unfolding receive report
  failure_heard others r later i b drains some_room within =
      let e = errorf_w "router: subscription error on %q: %w" ((r.readers i).dest ∷ []) b in
      let (before, queued) =
        publish_err_through others e later.err_cap later.errs drains some_room within in
      (
        refl,
        e,
        set_phase-own r i (stopped (some e)),
        (λ k. unfold errors_is in refl),
        before,
        (unfold set_phase in queued),
      )
