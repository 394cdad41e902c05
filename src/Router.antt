-- ===== src/Router.antt =====
-- internal/router/router.go: the registry of destinations, its operations, and the readers.
-- A pointer to a destState is a number; `states` and `readers` are the heap. What a mutex guards
-- is one operation here; a call that router.go makes outside the lock is returned to the caller.
pub mod Reader
pub mod Registry
pub mod Table
pub mod Refinement
pub mod AfterClose
pub mod Cancel
pub mod Exit
pub mod Tokens
pub mod Removal
pub mod Step
pub mod Invariant
pub mod Delivery
pub mod Tests
pub mod Publish
use gridappsd_go.Common.{◌≡◌, ◌≢◌, if_pos, if_neg}
use gridappsd_go.Common.{
  ℕ, zero, suc, ◌+◌, ◌%◌, ◌^◌, String, Bytes, Bytes-discrete, Bool, true, false, not, List, [], ◌∷◌,
  ◌++◌, map, Option, none, some, ite, ℕ_discrete, if◌then◌else◌,
}
use gridappsd_go.Common.Families.{update}
use gridappsd_go.Common.Maps.{lookup, insert, delete}
use gridappsd_go.GoError.{GoError, errorf_w, Result, ok, err}

abbrev pub error_chan_buffer : ℕ
error_chan_buffer = 16

-- destState; `done` says that the channel of that name is closed.
pub record DestState (H : Type 0) : Type 0 where
  pub sub : ℕ
  pub handlers : List (ℕ × H)
  pub done : Bool

-- Where the goroutine of readLoop stands: in its loop, after the loop with the terminal error, if
-- there was one, after close(done), after the registry was updated with what is to be published,
-- and at its end.
pub data Phase : Type 0 where
  reading : Phase
  stopped marked reporting : Option GoError → Phase
  exited : Phase

pub record ReaderState : Type 0 where
  pub dest : Bytes
  pub phase : Phase

pub record Router (H : Type 0) : Type 0 where
  pub dests : List (Bytes × ℕ)
  pub states : ℕ → DestState H
  pub readers : ℕ → ReaderState
  pub spawned : ℕ
  pub next_token : ℕ
  pub errs : List GoError
  pub err_cap : ℕ

unfoldable pub lookup_dest : Bytes → List (Bytes × ℕ) → Option ℕ
lookup_dest dest m = lookup Bytes-discrete dest m

module _ {H : Type 0} where
  -- NewWithErrorChan, on a channel that holds `errs` and has room for `cap`.
  unfoldable pub new_with_error_chan : List GoError → ℕ → Router H
  new_with_error_chan errs cap = record {
    dests = [];
    states = λ _. record { sub = 0; handlers = []; done = false };
    readers = λ _. record { dest = []; phase = reading };
    spawned = 0;
    next_token = 0;
    errs = errs;
    err_cap = cap;
  }

  -- New, which makes a channel of its own.
  unfoldable pub new : Router H
  unfolding new_with_error_chan
  new = new_with_error_chan [] error_chan_buffer

  -- The live state of a destination: `exists && !state.dead()`.
  unfoldable pub live_state : Router H → Bytes → Option ℕ
  live_state r dest = elim (lookup_dest dest r.dests) [
    | none ↦ none
    | some i ↦ if (r.states i).done then none else some i
  ]

  unfoldable pub set_handlers : Router H → ℕ → List (ℕ × H) → Router H
  set_handlers r i hs = record r { states = update r.states i (record s { handlers = hs }) }
    where
      s : DestState H
      s = r.states i

  -- A new destState in the registry, and its reader.
  unfoldable pub spawn : Router H → Bytes → ℕ → ℕ → H → Router H
  spawn r dest sub tok h = record r {
    dests = insert Bytes-discrete dest r.spawned r.dests;
    states =
        update r.states r.spawned (record { sub = sub; handlers = (tok, h) ∷ []; done = false });
    readers = update r.readers r.spawned (record { dest = dest; phase = reading });
    spawned = suc r.spawned;
  }

  -- nextToken.Add(1)
  unfoldable pub draw_token : Router H → Router H
  draw_token r = record r { next_token = (r.next_token + 1) % 2 ^ 64 }

  -- Subscribe under the lock; `conn_subscribe` is the transport's Subscribe.
  unfoldable pub subscribe_locked :
      (Bytes → Result ℕ) → ℕ → Bytes → H → Router H → Router H × Result ℕ
  subscribe_locked conn_subscribe tok dest h r = elim (live_state r dest) [
    | some i ↦ (set_handlers r i (insert ℕ_discrete tok h (r.states i).handlers), ok tok)
    | none ↦ elim (conn_subscribe dest) [
      | err e ↦ (r, err (errorf_w "router: subscribe %q: %w" (dest ∷ []) e))
      | ok sub ↦ (spawn r dest sub tok h, ok tok)
    ]
  ]

  unfoldable pub subscribe : (Bytes → Result ℕ) → Bytes → H → Router H → Router H × Result ℕ
  unfolding draw_token
  subscribe conn_subscribe dest h r =
      subscribe_locked conn_subscribe (draw_token r).next_token dest h (draw_token r)

  -- The last handler is gone: the destination leaves the registry, and a subscription whose reader
  -- lives is to be cancelled.
  unfoldable pub drop_dest : Router H → Bytes → ℕ → Router H × Option ℕ
  drop_dest r dest i = (
    record r { dests = delete Bytes-discrete dest r.dests },
    if (r.states i).done then none else some (r.states i).sub,
  )

  -- Unsubscribe under the lock; the result is the subscription to cancel, if any.
  unfoldable pub unsubscribe_locked : Bytes → ℕ → Router H → Router H × Option ℕ
  unsubscribe_locked dest tok r = elim (lookup_dest dest r.dests) [
    | none ↦ (r, none)
    | some i ↦ elim (delete ℕ_discrete tok (r.states i).handlers) [
      | h ∷ hs ↦ (set_handlers r i (h ∷ hs), none)
      | [] ↦ drop_dest (set_handlers r i []) dest i
    ]
  ]

  -- Unsubscribe, with the transport's answer to each cancelled subscription.
  unfoldable pub unsubscribe :
      (ℕ → Option GoError) → Bytes → ℕ → Router H → Router H × Option GoError
  unsubscribe sub_unsubscribe dest tok r =
      let (r', cancel) = unsubscribe_locked dest tok r in
      (
        r',
        elim cancel [
          | none ↦ none
          | some sub ↦ elim (sub_unsubscribe sub) [
            | none ↦ none
            | some e ↦ some (errorf_w "router: unsubscribe %q: %w" (dest ∷ []) e)
          ]
        ],
      )

  -- The subscriptions of the live states, which Close cancels.
  unfoldable pub live_subs : (ℕ → DestState H) → List (Bytes × ℕ) → List ℕ
  live_subs states [] = []
  live_subs states ((dest, i) ∷ m) =
      if (states i).done then live_subs states m else (states i).sub ∷ live_subs states m

  -- Close under the lock.
  unfoldable pub close_locked : Router H → Router H × List ℕ
  close_locked r = (record r { dests = [] }, live_subs r.states r.dests)
