-- ===== src/Router/Delivery.antt =====
-- internal/router/router.go: dispatch of a message.
use mathlib.Core.List.{Memᴰ}
use gridappsd_go.Common.{ℕ, Bytes, List, [], ◌∷◌, some, ℕ_discrete, ◌≡◌, refl, arith}
use gridappsd_go.Common.Maps.{lookup}
use gridappsd_go.Message.{header_destination}
use gridappsd_go.Router.{Router, lookup_dest}
use gridappsd_go.Router.Reader.{message, Call, dispatch, receive}
use gridappsd_go.Router.Registry.{Attached}
use gridappsd_go.Router.Invariant.{Inv}

module _ {H : Type 0} where
  abbrev pub call : H → Bytes → Bytes → Call H
  call h dest body = record { handler = h; headers = (header_destination, dest) ∷ []; body = body }

  mem-dispatch :
      (dest body : Bytes) (t : ℕ) (h : H) (m : List (ℕ × H))
      → lookup ℕ_discrete t m ≡ some h
      → Memᴰ (call h dest body) (dispatch dest body m)
  unfolding lookup dispatch
  mem-dispatch dest body t h [] e = cc
  mem-dispatch dest body t h ((u, k) ∷ m) e = elim (ℕ_discrete u t) [
    | yes same ↦ Memᴰ.head (ground arith)
    | no other ↦ Memᴰ.tail (mem-dispatch dest body t h m (ground arith))
  ]

  -- Every handler of a destination is called with each message that its reader receives, and
  -- is given the destination that it was registered on as the destination header.
  Attached-receive :
      (r : Router H) (d : Bytes) (t : ℕ) (h : H) (body : Bytes)
      → Inv r
      → Attached r d t h
      → (i : ℕ) × (lookup_dest d r.dests ≡ some i)
        × Memᴰ (call h d body) (receive r i (message body)).1
        × ((receive r i (message body)).0 ≡ r)
  unfolding receive
  Attached-receive r d t h body inv (i, found, alive, held) = (
    i,
    found,
    rw (inv.registered d i found).1 (mem-dispatch d body t h (r.states i).handlers held),
    refl,
  )
