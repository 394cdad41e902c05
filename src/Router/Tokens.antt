-- ===== src/Router/Tokens.antt =====
-- internal/router/router.go: the handlers of a state stand under distinct tokens, so a message calls
-- each handler of its destination once.
use mathlib.Core.List.{Memᴰ}
use gridappsd_go.Common.{
  ℕ, ◌≤◌, length, ap, Bytes, List, [], ◌∷◌, map, none, some, ℕ_discrete, if_pos, if_neg, ◌≡◌, refl,
  ◌↔◌, arith, subst, if_rule,
}
use gridappsd_go.Common.Maps.{lookup, insert, delete, lookup-insert, lookup-delete}
use gridappsd_go.GoError.{GoError}
use gridappsd_go.Common.Families.{update_rule}
use gridappsd_go.Router.{
  Router, DestState, live_state, set_handlers, spawn, drop_dest, draw_token, subscribe,
  close_locked, new_with_error_chan,
}
use gridappsd_go.Router.Reader.{
  message, failure, closed, receive, dispatch, set_phase, mark_done, deregister, report,
  is_registered,
}
use gridappsd_go.Router.Registry.{subscribe_rule, live_state-some}
use gridappsd_go.Router.Removal.{unsubscribe_rule}
use gridappsd_go.Router.Step.{
  Step, subscribes, unsubscribes, closes, receives, marks, deregisters, reports, consumes, Reach,
  start, later,
}
use gridappsd_go.Router.Invariant.Readers.{Reach-Inv}
use gridappsd_go.Router.Delivery.{call}
use gridappsd_go.Router.Table.{view}

module _ {H : Type 0} where
  abbrev pub Distinct : List (ℕ × H) → Type 0
  Distinct [] = Unit {0}
  Distinct ((t, h) ∷ m) = (lookup ℕ_discrete t m ≡ none) × Distinct m

  insert-Distinct :
      (t : ℕ) (h : H) (m : List (ℕ × H)) → Distinct m → Distinct (insert ℕ_discrete t h m)
  unfolding insert
  insert-Distinct t h [] d = (unfold lookup in refl, tt)
  insert-Distinct t h ((j, w) ∷ m) (fresh, d) = elim (ℕ_discrete j t) [
    | yes same ↦ rw (if_pos _ same) (subst (λ k. lookup ℕ_discrete k m ≡ none) same fresh, d)
    | no other ↦
        rw (if_neg _ other)
          (ground (arith, fresh, lookup-insert ℕ_discrete t j h m), insert-Distinct t h m d)
  ]

  delete-Distinct : (t : ℕ) (m : List (ℕ × H)) → Distinct m → Distinct (delete ℕ_discrete t m)
  unfolding delete
  delete-Distinct t [] d = d
  delete-Distinct t ((j, w) ∷ m) (fresh, d) = elim (ℕ_discrete j t) [
    | yes same ↦ rw (if_pos _ same) (delete-Distinct t m d)
    | no other ↦
        rw (if_neg _ other)
          (ground (arith, fresh, lookup-delete ℕ_discrete t j m), delete-Distinct t m d)
  ]

  abbrev pub AllDistinct : Router H → Type 0
  AllDistinct r = (i : ℕ) → Distinct (r.states i).handlers

  set_handlers-AllDistinct :
      (r : Router H) (i : ℕ) (hs : List (ℕ × H))
      → Distinct hs
      → AllDistinct r
      → AllDistinct (set_handlers r i hs)
  unfolding set_handlers
  set_handlers-AllDistinct r i hs d all j =
      update_rule (λ (s : DestState H). Distinct s.handlers) r.states i j _ (λ _. d) (λ _. all j)

  spawn-AllDistinct :
      (r : Router H) (dest : Bytes) (sub t : ℕ) (h : H)
      → AllDistinct r
      → AllDistinct (spawn r dest sub t h)
  unfolding spawn
  spawn-AllDistinct r dest sub t h all j =
      update_rule (λ (s : DestState H). Distinct s.handlers) r.states r.spawned j _
        (λ _. (unfold lookup in refl, tt)) (λ _. all j)

  Step-AllDistinct : {r s : Router H} → Step r s → AllDistinct r → AllDistinct s
  unfolding subscribe draw_token close_locked drop_dest set_phase
  Step-AllDistinct {r} (subscribes f dest h small) all =
      subscribe_rule (λ p. AllDistinct p.0) f _ dest h (draw_token r)
        (λ i e. set_handlers-AllDistinct (draw_token r) i _ (insert-Distinct _ h _ (all i)) all)
        (λ e x. all) (λ sub x e. spawn-AllDistinct (draw_token r) dest sub _ h all)
  Step-AllDistinct {r} (unsubscribes dest tok) all =
      unsubscribe_rule (λ p. AllDistinct p.0) dest tok r (λ e. all)
        (λ i h hs found e.
          set_handlers-AllDistinct r i (h ∷ hs) (subst Distinct e (delete-Distinct tok _ (all i)))
            all)
        (λ i found e. set_handlers-AllDistinct r i [] tt all)
  Step-AllDistinct closes all = all
  Step-AllDistinct (receives i (message body) lt e) all = unfold receive in all
  Step-AllDistinct (receives i (failure x) lt e) all = unfold receive in all
  Step-AllDistinct (receives i closed lt e) all = unfold receive in all
  Step-AllDistinct {r} (marks i t e) all =
      unfold mark_done in
      λ j.
        update_rule (λ (s : DestState H). Distinct s.handlers) r.states i j _ (λ _. all i)
          (λ _. all j)
  Step-AllDistinct {r} (deregisters i t e) all =
      unfold deregister in
      if_rule (λ (q : Router H). AllDistinct q) (is_registered r i) (λ _. all) (λ _. all)
  Step-AllDistinct (reports others i none within e) all = unfold report in all
  Step-AllDistinct (reports others i (some x) within e) all = unfold report in all
  Step-AllDistinct (consumes e q f) all = all

  Reach-AllDistinct : {q : List GoError} {cap : ℕ} {r : Router H} → Reach q cap r → AllDistinct r
  Reach-AllDistinct start = unfold new_with_error_chan in λ i. tt
  Reach-AllDistinct (later reach step) = Step-AllDistinct step (Reach-AllDistinct reach)

  mem_of_lookup :
      (t : ℕ) (h : H) (m : List (ℕ × H)) → lookup ℕ_discrete t m ≡ some h → Memᴰ (t, h) m
  unfolding lookup
  mem_of_lookup t h [] e = cc
  mem_of_lookup t h ((u, k) ∷ m) e = elim (ℕ_discrete u t) [
    | yes same ↦ Memᴰ.head (ground arith)
    | no other ↦ Memᴰ.tail (mem_of_lookup t h m (ground arith))
  ]

  lookup_of_mem :
      (t : ℕ) (h : H) (m : List (ℕ × H))
      → Distinct m
      → Memᴰ (t, h) m
      → lookup ℕ_discrete t m ≡ some h
  unfolding lookup
  lookup_of_mem t h [] d i = elim i [ ]
  lookup_of_mem t h ((u, k) ∷ m) (fresh, d) (Memᴰ.head e) = ground arith
  lookup_of_mem t h ((u, k) ∷ m) (fresh, d) (Memᴰ.tail i) = ground (arith, lookup_of_mem t h m d i)

  dispatch-map :
      (dest body : Bytes) (hs : List (ℕ × H))
      → dispatch dest body hs ≡ map (λ (p : ℕ × H). call p.1 dest body) hs
  unfolding dispatch
  dispatch-map dest body [] = refl
  dispatch-map dest body ((t, h) ∷ hs) = ap (◌∷◌ (call h dest body)) (dispatch-map dest body hs)

  -- A message on a live destination calls each handler that the table has for the destination, once,
  -- and no other, with the message's body and the destination as its one header; it changes nothing.
  pub delivers_once :
      {q : List GoError} {cap : ℕ} {r : Router H} (d body : Bytes) (i : ℕ)
      → length q ≤ cap
      → Reach q cap r
      → live_state r d ≡ some i
      → (hs : List (ℕ × H)) × Distinct hs
        × ((t : ℕ) (h : H) → Memᴰ (t, h) hs ↔ (view r d t ≡ some h))
        × (receive r i (message body) ≡ (r, map (λ (p : ℕ × H). call p.1 d body) hs))
  unfolding receive view
  delivers_once {r} d body i within reach live =
      let inv = Reach-Inv within reach in
      let hs = (r.states i).handlers in
      let distinct = Reach-AllDistinct reach i in
      (
        hs,
        distinct,
        (λ t h.
            rw (live, view)
              ((λ m. lookup_of_mem t h hs distinct m), (λ e. mem_of_lookup t h hs e))),
        ap (λ calls. (r, calls))
            (rw (inv.registered d i (live_state-some r d i live).0).1 (dispatch-map d body hs)),
      )
