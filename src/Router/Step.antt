-- ===== src/Router/Step.antt =====
-- internal/router/router.go: the router, its readers and its callers as a step relation. Each step
-- is one section under the lock, one receive, or one of the calls between them.
use gridappsd_go.Common.{ℕ, suc, ◌≤◌, ◌<◌, ◌^◌, Bytes, Bool, List, ◌∷◌, Option, ◌≡◌, length}
use gridappsd_go.GoError.{GoError, Result}
use gridappsd_go.Router.{
  Router, reading, stopped, marked, reporting, subscribe, unsubscribe_locked, close_locked,
  new_with_error_chan,
}
use gridappsd_go.Router.Reader.{Received, receive, mark_done, deregister, report, Others}

module _ {H : Type 0} where
  -- The token counter is taken below its wrap at 2 ^ 64. `within` says that the other goroutines
  -- use the error channel as a channel of its capacity.
  pub data Step (r : Router H) : Router H → Type 0 where
    subscribes :
        (conn_subscribe : Bytes → Result ℕ) (dest : Bytes) (h : H)
        → suc r.next_token < 2 ^ 64
        → Step r (subscribe conn_subscribe dest h r).0
    unsubscribes : (dest : Bytes) (tok : ℕ) → Step r (unsubscribe_locked dest tok r).0
    closes : Step r (close_locked r).0
    receives :
        (i : ℕ) (m : Received)
        → i < r.spawned
        → (r.readers i).phase ≡ reading
        → Step r (receive r i m).0
    marks :
        (i : ℕ) (t : Option GoError) → (r.readers i).phase ≡ stopped t → Step r (mark_done r i t)
    deregisters :
        (i : ℕ) (t : Option GoError) → (r.readers i).phase ≡ marked t → Step r (deregister r i t)
    reports :
        (others : Others) (i : ℕ) (t : Option GoError)
        → ((k : ℕ) (after : Bool) (p : List GoError)
            → length p ≤ r.err_cap
            → length (others k after p) ≤ r.err_cap)
        → (r.readers i).phase ≡ reporting t
        → Step r (report others r i t)
    consumes : (e : GoError) (q : List GoError) → r.errs ≡ e ∷ q → Step r (record r { errs = q })

  -- The routers that New and any steps lead to.
  pub data Reach (q : List GoError) (cap : ℕ) : Router H → Type 0 where
    start : Reach q cap (new_with_error_chan q cap)
    later : {r s : Router H} → Reach q cap r → Step r s → Reach q cap s
