-- ===== src/Router/AfterClose.antt =====
-- internal/router/router.go: a Subscribe that comes after Close. Close sets no mark, so a call that
-- found the router earlier can still start a reader.
use gridappsd_go.Common.{ℕ, suc, ◌+◌, ◌%◌, ◌^◌, Bytes, some, ◌≡◌, refl}
use gridappsd_go.Common.Maps.{lookup}
use gridappsd_go.GoError.{Result, ok}
use gridappsd_go.Router.{
  Router, lookup_dest, live_state, draw_token, spawn, subscribe, subscribe_locked, close_locked,
}
use gridappsd_go.Router.Invariant.{Inv, close-Inv}
use gridappsd_go.Router.Table.{empty, put, view}
use gridappsd_go.Router.Refinement.{view-subscribe, view-close}

module _ {H : Type 0} where
  subscribe-close :
      (f : Bytes → Result ℕ) (dest : Bytes) (h : H) (sub : ℕ) (r : Router H)
      → f dest ≡ ok sub
      → let (r', result) = subscribe f dest h (close_locked r).0 in
        (result ≡ ok ((r.next_token + 1) % 2 ^ 64)) × (r'.spawned ≡ suc r.spawned)
  unfolding subscribe subscribe_locked draw_token close_locked live_state lookup_dest lookup spawn
  subscribe-close f dest h sub r e = rw (e, subscribe_locked) (refl, refl)

  -- A Subscribe that the transport takes starts a reader also on a router that Close has emptied,
  -- and its handler is then the one handler of that router.
  pub subscribe_after_close :
      (f : Bytes → Result ℕ) (dest : Bytes) (h : H) (sub : ℕ) (r : Router H)
      → Inv r
      → f dest ≡ ok sub
      → let tok = (r.next_token + 1) % 2 ^ 64 in
        let (r', result) = subscribe f dest h (close_locked r).0 in
        (result ≡ ok tok) × (r'.spawned ≡ suc r.spawned) × (view r' ≡ put dest tok (some h) empty)
  subscribe_after_close f dest h sub r inv e =
      let (taken, spawned) = subscribe-close f dest h sub r e in
      (
        taken,
        spawned,
        rw (taken, view-close r) at (view-subscribe f dest h (close_locked r).0 (close-Inv r inv)),
      )
