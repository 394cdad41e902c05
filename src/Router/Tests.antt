-- ===== src/Router/Tests.antt =====
-- The router's theorems at concrete routers.
use mathlib.Core.List.{Memᴰ}
use gridappsd_go.Common.{ℕ, Bytes, codes, [], ◌∷◌, some, none, ◌≡◌, refl, arith}
unfoldable use gridappsd_go.Common.{Bytes-discrete, ℕ_discrete}
unfoldable use gridappsd_go.Common.Maps.{lookup, insert}
use gridappsd_go.GoError.{GoError, ErrorId, value, foreign, errors_is, Result, ok, err}
use gridappsd_go.Router.{
  Router, reading, stopped, new, subscribe, subscribe_locked, close_locked, lookup_dest, live_state,
  spawn,
}
use gridappsd_go.Router.Reader.{message, failure, closed, receive, set_phase, mark_done}
use gridappsd_go.Router.Publish.{undisturbed}
use gridappsd_go.Router.Step.{Reach, start, later, subscribes}
use gridappsd_go.Router.Invariant.{Inv}
use gridappsd_go.Router.Invariant.Readers.{Reach-Inv}
use gridappsd_go.Common.{suc, ◌+◌, ◌%◌, ◌^◌}
use gridappsd_go.Common.{false, ◌++◌, List}
use gridappsd_go.Router.Step.{Step, receives}
use gridappsd_go.Router.Reader.{report}
use gridappsd_go.Router.Exit.{Moves, mover, error_in, Step-Moves, failure_heard}
use gridappsd_go.Router.Cancel.{cancelled, close-Cancels}
use gridappsd_go.Router.Table.{view, replay, put, empty}
use gridappsd_go.Router.Refinement.{events, Reach_refines}
use gridappsd_go.Router.AfterClose.{subscribe_after_close}
use gridappsd_go.Router.Delivery.{call}
use gridappsd_go.Router.Tokens.{Distinct, delivers_once}
use gridappsd_go.Common.{List, map, ◌↔◌}

abbrev transport : Bytes → Result ℕ
transport dest = ok 5

abbrev broken : Bytes → Result ℕ
broken dest = err (value (foreign 1))

abbrev queue_a : Bytes
queue_a = codes "/queue/a"

-- One destination with one handler, 7, under token 1.
one : Router ℕ
unfolding subscribe subscribe_locked live_state new lookup_dest lookup insert spawn Bytes-discrete
    ℕ_discrete
one = (subscribe transport queue_a 7 new).0

one-Reach : Reach [] 16 one
unfolding one
one-Reach = later start (subscribes transport queue_a 7 (omega arith))

one-Inv : Inv one
one-Inv = Reach-Inv (omega arith) one-Reach

one_found : lookup_dest queue_a one.dests ≡ some 0
unfolding one
one_found = refl

one_dest : (one.readers 0).dest ≡ queue_a
unfolding one
one_dest = refl

one_handlers : (one.states 0).handlers ≡ (1, 7) ∷ []
unfolding one
one_handlers = refl

-- A second Subscribe attaches to the live reader, with a token of its own.
second_token : (subscribe broken queue_a 8 one).1 ≡ ok 2
unfolding one
second_token = refl

-- Once the reader has closed `done`, a Subscribe makes a new subscription.
redial_fails : (subscribe_locked broken 2 queue_a 8 (mark_done one 0 none)).0 ≡ mark_done one 0 none
unfolding one mark_done set_phase
redial_fails = refl

abbrev two_handlers : Router ℕ
two_handlers = (subscribe broken queue_a 8 one).0

Reach-Inv_example : Inv one
Reach-Inv_example = Reach-Inv {q = []} {cap = 16} (omega arith) one-Reach

Reach_refines_example : view one ≡ replay (events one-Reach)
Reach_refines_example = Reach_refines (omega arith) one-Reach

-- The table is not empty.
one-view : view one queue_a 1 ≡ some 7
unfolding one view live_state
one-view = refl

subscribe_after_close_example :
    let (r', result) = subscribe transport queue_a 9 (close_locked one).0 in
    (result ≡ ok ((one.next_token + 1) % 2 ^ 64))
    × (r'.spawned ≡ suc one.spawned)
    × (view r' ≡ put queue_a ((one.next_token + 1) % 2 ^ 64) (some 9) empty)
subscribe_after_close_example = subscribe_after_close transport queue_a 9 5 one one-Inv refl

one_live : live_state one queue_a ≡ some 0
unfolding one live_state mark_done set_phase
one_live = refl

one_reading : (one.readers 0).phase ≡ reading
unfolding one
one_reading = refl

delivers_once_example :
    (hs : List (ℕ × ℕ)) × Distinct hs
    × ((t : ℕ) (h : ℕ) → Memᴰ (t, h) hs ↔ (view one queue_a t ≡ some h))
    × (receive one 0 (message (1 ∷ [])) ≡ (one, map (λ (p : ℕ × ℕ). call p.1 queue_a (1 ∷ [])) hs))
delivers_once_example =
    delivers_once {q = []} {cap = 16} queue_a (1 ∷ []) 0 (omega arith) one-Reach one_live

abbrev one_ended : Router ℕ
one_ended = (receive one 0 closed).0

one_ends : Step one one_ended
unfolding one
one_ends = receives 0 closed (omega arith) refl

Step-Moves_example : Moves one one_ended 0 (mover one_ends) (error_in one_ends)
Step-Moves_example = Step-Moves 0 one_ends (unfold one in omega arith)

failure_heard_example :
    let (s, calls) = receive one 0 (failure (value (foreign 4))) in
    (calls ≡ [])
    × (e : GoError) × ((s.readers 0).phase ≡ stopped (some e))
    × ((k : ErrorId) → errors_is k e ≡ errors_is k (value (foreign 4)))
    × (before : List GoError) × ((report undisturbed one 0 (some e)).errs ≡ before ++ e ∷ [])
failure_heard_example =
    failure_heard undisturbed one one 0 (value (foreign 4)) (λ k after p. omega arith)
      (unfold one in omega arith) (unfold one in omega arith)

close-Cancels_example :
    let (s, subs) = close_locked one in
    (s.dests ≡ [])
    × ((s.states 0).done ≡ false)
    × Memᴰ (s.states 0).sub (subs ++ cancelled one-Reach)
close-Cancels_example =
    close-Cancels 0 (omega arith) one-Reach (unfold one in omega arith) (unfold one in refl)
