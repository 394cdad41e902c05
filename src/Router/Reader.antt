-- ===== src/Router/Reader.antt =====
-- internal/router/router.go: readLoop, step by step, and publishErr.
use gridappsd_go.Common.{
  ℕ, zero, suc, Bytes, Bytes-discrete, Bool, true, false, List, [], ◌∷◌, ◌++◌, Option, none, some,
  ite, ℕ_discrete, if◌then◌else◌, length, ltb,
}
use gridappsd_go.Common.Maps.{delete}
use gridappsd_go.GoError.{GoError, value, subscription_closed, errorf_w}
use gridappsd_go.Message.{header_destination}
use gridappsd_go.Common.Families.{update}
use gridappsd_go.Router.{
  DestState, Phase, stopped, marked, reporting, exited, Router, lookup_dest, error_chan_buffer,
}

-- transport.Msg as a reader receives it.
pub data Received : Type 0 where
  message : Bytes → Received
  failure : GoError → Received
  closed : Received

-- One call of a handler: its headers and its body.
pub record Call (H : Type 0) : Type 0 where
  pub handler : H
  pub headers : List (Bytes × Bytes)
  pub body : Bytes

-- `<-errs` of a channel that holds `q`; an empty one is left as it is.
abbrev pub discard_oldest : List GoError → List GoError
discard_oldest [] = []
discard_oldest (x ∷ q) = q

-- What other goroutines make of the channel between two selects: before the discard of a round
-- (`false`) and after it (`true`).
abbrev pub Others : Type 0
Others = ℕ → Bool → List GoError → List GoError

-- The loop of publishErr: a round sends, or discards the oldest error and goes on.
unfoldable pub publish_loop : Others → ℕ → GoError → ℕ → List GoError → List GoError
publish_loop others zero e cap q = q
publish_loop others (suc rounds) e cap q =
    let left = others rounds true (discard_oldest (others rounds false q)) in
    let again = publish_loop others rounds e cap left in
    if ltb (length q) cap then q ++ e ∷ [] else again

unfoldable pub publish_err : Others → GoError → ℕ → List GoError → List GoError
publish_err others e cap q = publish_loop others (suc error_chan_buffer) e cap q

-- What the final `switch` publishes.
unfoldable pub cause : Bytes → Option GoError → Bool → Option GoError
cause dest (some e) unexpected = some e
cause dest none true =
    some (errorf_w "router: subscription on %q ended: %w" (dest ∷ []) (value subscription_closed))
cause dest none false = none

module _ {H : Type 0} where
  unfoldable pub set_phase : Router H → ℕ → Phase → Router H
  set_phase r i p = record r {
    readers = update r.readers i (record { dest = (r.readers i).dest; phase = p });
  }

  -- The calls that a message makes, one for each handler of the snapshot.
  unfoldable pub dispatch : Bytes → Bytes → List (ℕ × H) → List (Call H)
  dispatch dest body [] = []
  dispatch dest body ((tok, h) ∷ hs) =
      record { handler = h; headers = (header_destination, dest) ∷ []; body = body }
      ∷ dispatch dest body hs

  -- A round of the loop: what is received, and the calls that it makes.
  unfoldable pub receive : Router H → ℕ → Received → Router H × List (Call H)
  receive r i (message body) = (r, dispatch (r.readers i).dest body (r.states i).handlers)
  receive r i (failure e) = (
    set_phase r i (
        stopped
          (some (errorf_w "router: subscription error on %q: %w" ((r.readers i).dest ∷ []) e))),
    [],
  )
  receive r i closed = (set_phase r i (stopped none), [])

  -- close(state.done)
  unfoldable pub mark_done : Router H → ℕ → Option GoError → Router H
  mark_done r i term_err =
      set_phase (record r { states = update r.states i (record s { done = true }) }) i
        (marked term_err)
    where
      s : DestState H
      s = r.states i

  -- `r.dests[dest] == state`
  unfoldable pub is_registered : Router H → ℕ → Bool
  is_registered r i = elim (lookup_dest (r.readers i).dest r.dests) [
    | none ↦ false
    | some j ↦ ite (ℕ_discrete j i) true false
  ]

  -- The last section under the lock.
  unfoldable pub deregister : Router H → ℕ → Option GoError → Router H
  deregister r i term_err =
      let dest = (r.readers i).dest in
      let unexpected = is_registered r i in
      set_phase (if unexpected then record r { dests = delete Bytes-discrete dest r.dests } else r)
        i (reporting (cause dest term_err unexpected))

  unfoldable pub report : Others → Router H → ℕ → Option GoError → Router H
  report others r i none = set_phase r i exited
  report others r i (some e) =
      set_phase (record r { errs = publish_err others e r.err_cap r.errs }) i exited
