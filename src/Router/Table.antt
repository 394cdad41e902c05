-- ===== src/Router/Table.antt =====
-- internal/router/router.go: what a router promises, as a table of the handlers that are called for
-- each destination. It knows no state, no reader, no lock and no subscription.
use gridappsd_go.Common.{
  ℕ, Bytes, Bytes-discrete, List, [], ◌∷◌, Option, none, some, ite, ℕ_discrete,
}
use gridappsd_go.Common.Maps.{lookup}
use gridappsd_go.Router.{Router, live_state}

-- The handler under a token on a destination.
abbrev pub Table : Type 0 → Type 0
Table H = Bytes → ℕ → Option H

pub data Event (H : Type 0) : Type 0 where
  added : (dest : Bytes) (tok : ℕ) → H → Event H
  removed : (dest : Bytes) (tok : ℕ) → Event H
  cleared : Event H
  ended : (dest : Bytes) → Event H
  nothing : Event H

module _ {H : Type 0} where
  abbrev pub empty : Table H
  empty d t = none

  abbrev pub put : Bytes → ℕ → Option H → Table H → Table H
  put dest tok x f d t = ite (Bytes-discrete dest d) (ite (ℕ_discrete tok t) x (f d t)) (f d t)

  abbrev pub drop : Bytes → Table H → Table H
  drop dest f d t = ite (Bytes-discrete dest d) none (f d t)

  abbrev pub apply : Event H → Table H → Table H
  apply (added dest tok h) f = put dest tok (some h) f
  apply (removed dest tok) f = put dest tok none f
  apply cleared f = empty
  apply (ended dest) f = drop dest f
  apply nothing f = f

  -- The events, the newest first, from a table with no handler.
  unfoldable pub replay : List (Event H) → Table H
  replay [] = empty
  replay (e ∷ es) = apply e (replay es)

  -- The table that a router stands for: what live readers call.
  unfoldable pub view : Router H → Table H
  view r d t = elim (live_state r d) [
    | none ↦ none
    | some i ↦ lookup ℕ_discrete t (r.states i).handlers
  ]
