-- ===== src/Router/Refinement.antt =====
-- internal/router/router.go: the router refines the table of its handlers.
use mathlib.Core.Path.{fun_ext}
use gridappsd_go.Common.{
  ℕ, ◌+◌, ◌%◌, ◌≤◌, ◌^◌, Bytes, Bytes-discrete, List, [], ◌∷◌, Option, none, some, ℕ_discrete, ◌≡◌,
  refl, ◌∙◌, ap, arith, length, if◌then◌else◌,
}
use gridappsd_go.Common.Maps.{lookup, insert, delete, lookup-insert, lookup-delete}
use gridappsd_go.GoError.{GoError, Result, ok, err}
use gridappsd_go.Router.{
  Router, marked, lookup_dest, live_state, set_handlers, spawn, drop_dest, draw_token, subscribe,
  unsubscribe_locked, close_locked, new_with_error_chan,
}
use gridappsd_go.Router.Reader.{
  Received, message, failure, closed, receive, set_phase, mark_done, deregister, is_registered,
  report, Others,
}
use gridappsd_go.Router.Registry.{subscribe_rule}
use gridappsd_go.Router.Removal.{unsubscribe_rule}
use gridappsd_go.Router.Step.{
  Step, subscribes, unsubscribes, closes, receives, marks, deregisters, reports, consumes, Reach,
  start, later,
}
use gridappsd_go.Router.Invariant.{Inv}
use gridappsd_go.Router.Invariant.Readers.{Reach-Inv}
use gridappsd_go.Router.Table.{
  Table, Event, added, removed, cleared, ended, nothing, empty, put, apply, replay, view,
}

module _ {H : Type 0} where
  table_ext : {f g : Table H} → ((d : Bytes) (t : ℕ) → f d t ≡ g d t) → f ≡ g
  table_ext same = fun_ext λ d. fun_ext λ t. same d t

  -- A new handler on a live destination.
  view-attach :
      (r : Router H) (dest : Bytes) (tok i : ℕ) (h : H)
      → Inv r
      → live_state r dest ≡ some i
      → view (set_handlers r i (insert ℕ_discrete tok h (r.states i).handlers))
        ≡ put dest tok (some h) (view r)
  unfolding view live_state set_handlers
  view-attach r dest tok i h inv live = table_ext λ d t. ground (
    arith,
    inv.registered d i,
    inv.registered dest i,
    lookup-insert ℕ_discrete tok t h (r.states i).handlers,
  )

  view-spawn :
      (r : Router H) (dest : Bytes) (sub tok : ℕ) (h : H)
      → Inv r
      → live_state r dest ≡ none
      → view (spawn r dest sub tok h) ≡ put dest tok (some h) (view r)
  unfolding view live_state spawn lookup_dest
  view-spawn r dest sub tok h inv dead = table_ext λ d t.
      unfold lookup in
      ground
        (arith, inv.registered d r.spawned, lookup-insert Bytes-discrete dest d r.spawned r.dests)

  -- What Subscribe means to the table, by its result.
  abbrev pub subscribe_event : Bytes → H → Result ℕ → Event H
  subscribe_event dest h (ok tok) = added dest tok h
  subscribe_event dest h (err e) = nothing

  pub view-subscribe :
      (f : Bytes → Result ℕ) (dest : Bytes) (h : H) (r : Router H)
      → Inv r
      → let (r', result) = subscribe f dest h r in
        view r' ≡ apply (subscribe_event dest h result) (view r)
  unfolding subscribe draw_token
  view-subscribe f dest h r inv =
      let t = (r.next_token + 1) % 2 ^ 64 in
      let drawn : view (draw_token r) ≡ view r = unfold view live_state in refl in
      subscribe_rule
        (λ (p : Router H × Result ℕ). view p.0 ≡ apply (subscribe_event dest h p.1) (view r)) f t
        dest h (draw_token r)
        (λ i e. unfold view live_state set_handlers in view-attach r dest t i h inv e)
        (λ e x. drawn) (λ sub x e. unfold view live_state spawn in view-spawn r dest sub t h inv e)

  view-keep_some :
      (r : Router H) (dest : Bytes) (tok i : ℕ)
      → Inv r
      → lookup_dest dest r.dests ≡ some i
      → view (set_handlers r i (delete ℕ_discrete tok (r.states i).handlers))
        ≡ put dest tok none (view r)
  unfolding view live_state set_handlers
  view-keep_some r dest tok i inv found = table_ext λ d t. ground (
    arith,
    inv.registered d i,
    inv.registered dest i,
    lookup-delete ℕ_discrete tok t (r.states i).handlers,
  )

  view-drop_last :
      (r : Router H) (dest : Bytes) (tok i : ℕ)
      → Inv r
      → lookup_dest dest r.dests ≡ some i
      → delete ℕ_discrete tok (r.states i).handlers ≡ []
      → view (drop_dest (set_handlers r i []) dest i).0 ≡ put dest tok none (view r)
  unfolding view live_state set_handlers drop_dest lookup_dest
  view-drop_last r dest tok i inv found last = table_ext λ d t.
      unfold lookup in
      ground (
        arith,
        inv.registered d i,
        inv.registered dest i,
        lookup-delete Bytes-discrete dest d r.dests,
        lookup-delete ℕ_discrete tok t (r.states i).handlers,
      )

  view-unknown :
      (r : Router H) (dest : Bytes) (tok : ℕ)
      → lookup_dest dest r.dests ≡ none
      → view r ≡ put dest tok none (view r)
  unfolding view live_state
  view-unknown r dest tok e = table_ext λ d t. ground arith

  view-unsubscribe :
      (dest : Bytes) (tok : ℕ) (r : Router H)
      → Inv r
      → view (unsubscribe_locked dest tok r).0 ≡ put dest tok none (view r)
  view-unsubscribe dest tok r inv =
      unsubscribe_rule (λ p. view p.0 ≡ put dest tok none (view r)) dest tok r
        (view-unknown r dest tok)
        (λ i h hs found e. rw (← e) (view-keep_some r dest tok i inv found))
        (λ i found last. view-drop_last r dest tok i inv found last)

  pub view-close : (r : Router H) → view (close_locked r).0 ≡ empty
  unfolding view live_state close_locked lookup_dest lookup
  view-close r = refl

  abbrev pub mark_event : Router H → ℕ → Event H
  mark_event r i = if is_registered r i then ended (r.readers i).dest else nothing

  view-mark_done :
      (r : Router H) (i : ℕ) (e : Option GoError)
      → Inv r
      → view (mark_done r i e) ≡ apply (mark_event r i) (view r)
  unfolding view live_state mark_done set_phase is_registered
  view-mark_done r i e inv =
      table_ext λ d t. ground (arith, inv.registered d i, inv.registered (r.readers i).dest i)

  view-deregister :
      (r : Router H) (i : ℕ) (e : Option GoError)
      → Inv r
      → (r.readers i).phase ≡ marked e
      → view (deregister r i e) ≡ view r
  unfolding view live_state deregister set_phase is_registered lookup_dest
  view-deregister r i e inv at_mark = table_ext λ d t.
      ground (arith, inv.done_marked i, lookup-delete Bytes-discrete (r.readers i).dest d r.dests)

  view-receive : (r : Router H) (i : ℕ) (m : Received) → view (receive r i m).0 ≡ view r
  unfolding view live_state receive set_phase
  view-receive r i (message body) = refl
  view-receive r i (failure e) = refl
  view-receive r i closed = refl

  view-report :
      (others : Others) (r : Router H) (i : ℕ) (e : Option GoError)
      → view (report others r i e) ≡ view r
  unfolding view live_state report set_phase
  view-report others r i none = refl
  view-report others r i (some e) = refl

  -- What a step means to the table.
  abbrev pub event_of : {r s : Router H} → Step r s → Event H
  event_of {r} (subscribes f dest h small) = subscribe_event dest h (subscribe f dest h r).1
  event_of (unsubscribes dest tok) = removed dest tok
  event_of closes = cleared
  event_of {r} (marks i e at_stop) = mark_event r i
  event_of (receives i m lt at_read) = nothing
  event_of (deregisters i e at_mark) = nothing
  event_of (reports others i e within at_report) = nothing
  event_of (consumes e q has) = nothing

  abbrev pub events : {q : List GoError} {cap : ℕ} {r : Router H} → Reach q cap r → List (Event H)
  events start = []
  events (later reach step) = event_of step ∷ events reach

  view-Step : {r s : Router H} (step : Step r s) → Inv r → view s ≡ apply (event_of step) (view r)
  view-Step {r} (subscribes f dest h small) inv = view-subscribe f dest h r inv
  view-Step {r} (unsubscribes dest tok) inv = view-unsubscribe dest tok r inv
  view-Step {r} closes inv = view-close r
  view-Step {r} (marks i e at_stop) inv = view-mark_done r i e inv
  view-Step {r} (receives i m lt at_read) inv = view-receive r i m
  view-Step {r} (deregisters i e at_mark) inv = view-deregister r i e inv at_mark
  view-Step {r} (reports others i e within at_report) inv = view-report others r i e
  view-Step {r} (consumes e q has) inv = unfold view live_state in refl

  -- In every router that steps lead to, the handlers of live readers are the table that the same
  -- steps make of the empty one: each Subscribe that succeeds adds its handler under its token,
  -- each Unsubscribe removes one, Close removes all, a registered reader that marks its end removes
  -- those of its destination, and no other step changes any.
  pub Reach_refines :
      {q : List GoError} {cap : ℕ} {r : Router H}
      → length q ≤ cap
      → (reach : Reach q cap r) → view r ≡ replay (events reach)
  unfolding replay
  Reach_refines within start = unfold view live_state new_with_error_chan lookup_dest lookup in refl
  Reach_refines within (later reach step) =
      view-Step step (Reach-Inv within reach)
      ∙ ap (apply (event_of step)) (Reach_refines within reach)
