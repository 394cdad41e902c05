-- ===== src/Pipeline.antt =====
-- internal/stomp/stomp.go on internal/router/router.go: the way of a message from go-stomp through
-- bridge to readLoop and the handlers.
pub mod Tests
use gridappsd_go.Common.{
  ℕ, Bytes, Bool, true, false, List, [], ◌∷◌, ◌++◌, Option, none, ◌≤◌, ◌<◌, length, ltb,
  if◌then◌else◌, some, ◌≡◌, refl, sym, ap, subst, ◌∙◌, inl, inr, arith, Option-cases,
}
use gridappsd_go.GoError.{GoError, ErrorId, subscription_closed, value, errors_is, errorf_w}
use gridappsd_go.Transport.{Msg}
use gridappsd_go.Router.{Router, stopped, lookup_dest}
use gridappsd_go.Router.Reader.{
  Call, message, failure, closed, receive, dispatch, set_phase, discard_oldest,
}
use gridappsd_go.Router.Publish.{undisturbed}
use gridappsd_go.Stomp.Bridge.{
  StompMessage, forward, delivered, cancelled_inner, halted_inner, Select, received, source_closed,
  cancelled, halted, new_bridge, run,
}
use gridappsd_go.Stomp.Bridge.Reference.{relay, run-relay, still_open, run-open}
use gridappsd_go.Stomp.Bridge.Runs.{run-Tidy}
use gridappsd_go.Common.{not, Bool-cases}

module _ {H : Type 0} where
  -- The loop of readLoop on the messages that a channel has been given, with the calls that it makes.
  -- Behind them the channel is closed, or the loop goes on waiting.
  unfoldable pub read_loop : Router H → ℕ → List Msg → Bool → Router H × List (Call H)
  read_loop r i [] is_closed = if is_closed then receive r i closed else (r, [])
  read_loop r i (m ∷ ms) is_closed = elim m.error [
    | some e ↦ receive r i (failure e)
    | none ↦
        let (r', calls) = receive r i (message m.body) in
        let (r'', more) = read_loop r' i ms is_closed in (r'', calls ++ more)
  ]

-- What a schedule of bridge has for the handlers: the bodies that come before the first error, the
-- end of the context, the unsubscribe or the end of the source; and the error, if one comes first.
abbrev pub bodies : List Select → List Bytes
bodies [] = []
bodies (received m delivered ∷ es) = elim m.error [ none ↦ m.body ∷ bodies es | some e ↦ [] ]
bodies (received m cancelled_inner ∷ es) = []
bodies (received m halted_inner ∷ es) = []
bodies (source_closed ∷ es) = []
bodies (cancelled ∷ es) = []
bodies (halted ∷ es) = []

abbrev pub outcome : List Select → Option GoError
outcome [] = none
outcome (received m delivered ∷ es) = elim m.error [ none ↦ outcome es | some e ↦ some e ]
outcome (received m cancelled_inner ∷ es) = none
outcome (received m halted_inner ∷ es) = none
outcome (source_closed ∷ es) = none
outcome (cancelled ∷ es) = none
outcome (halted ∷ es) = none

-- An error as the reader keeps it.
abbrev pub kept_error : Bytes → Option GoError → Option GoError
kept_error dest none = none
kept_error dest (some e) = some (errorf_w "router: subscription error on %q: %w" (dest ∷ []) e)

-- The bridge has closed the channel of the subscriber exactly if that is not open any more.
closes-still_open :
    (stomp_error : ℕ → Option Bool) (es : List Select)
    → ltb 0 (run stomp_error new_bridge es).closes ≡ not (still_open es)
closes-still_open stomp_error es =
    let same = run-open stomp_error es in
    let once = (run-Tidy stomp_error es).0.closed_once in
    elim (Bool-cases (still_open es)) [
      | inl e ↦ ground (arith, e, same, once)
      | inr e ↦ ground (arith, e, same, once)
    ]

module _ {H : Type 0} where
  abbrev pub all_calls : Bytes → List (ℕ × H) → List Bytes → List (Call H)
  all_calls dest hs [] = []
  all_calls dest hs (b ∷ bs) = dispatch dest b hs ++ all_calls dest hs bs

  -- The reader after a schedule: waiting for more while the channel is open, else at the end of its
  -- loop; and the calls on the way.
  abbrev pub Handled : Router H → ℕ → List Select → Router H × List (Call H) → Type 0
  Handled r i es (r', calls) =
      let dest = (r.readers i).dest in
      (r' ≡ (if still_open es then r else set_phase r i (stopped (kept_error dest (outcome es)))))
      × (calls ≡ all_calls dest (r.states i).handlers (bodies es))

  -- One message that is sent, by its error.
  relay_one-Handled :
      (r : Router H) (i : ℕ) (es : List Select) (body destination : Bytes) (e : Option GoError)
      → Handled r i es (read_loop r i (relay es) (not (still_open es)))
      → let m : StompMessage = record { body = body; destination = destination; error = e } in
        let next = received m delivered ∷ es in
        Handled r i next (read_loop r i (relay next) (not (still_open next)))
  unfolding read_loop receive forward
  relay_one-Handled r i es body destination none (ends, calls) =
      (ends, ap (λ cs. dispatch (r.readers i).dest body (r.states i).handlers ++ cs) calls)
  relay_one-Handled r i es body destination (some x) rest = (refl, refl)

  relay-Handled :
      (r : Router H) (i : ℕ) (es : List Select)
      → Handled r i es (read_loop r i (relay es) (not (still_open es)))
  unfolding read_loop receive
  relay-Handled r i [] = (refl, refl)
  relay-Handled r i (received m delivered ∷ es) =
      relay_one-Handled r i es m.body m.destination m.error (relay-Handled r i es)
  relay-Handled r i (received m cancelled_inner ∷ es) = (refl, refl)
  relay-Handled r i (received m halted_inner ∷ es) = (refl, refl)
  relay-Handled r i (source_closed ∷ es) = (refl, refl)
  relay-Handled r i (cancelled ∷ es) = (refl, refl)
  relay-Handled r i (halted ∷ es) = (refl, refl)

  -- On every schedule of the bridge below it, and on a router that is left alone meanwhile, a reader
  -- calls its handlers with each body that comes before the first error or end, in order, and with
  -- nothing else. If an error or an end has come, it has left its loop with that error, wrapped, or
  -- with none; otherwise it waits for more, as the bridge has not closed its channel.
  pub read_loop-run :
      (stomp_error : ℕ → Option Bool) (r : Router H) (i : ℕ) (es : List Select)
      → let b = run stomp_error new_bridge es in
        Handled r i es (read_loop r i b.sent (ltb 0 b.closes))
  read_loop-run stomp_error r i es =
      rw (run-relay stomp_error es, closes-still_open stomp_error es) (relay-Handled r i es)
