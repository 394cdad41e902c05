-- ===== src/Router/Invariant/Readers.antt =====
-- internal/router/router.go: the steps of a reader keep the invariant, and so does every step.
use gridappsd_go.Common.{
  ℕ, ◌≤◌, ◌<◌, Bytes, Bytes-discrete, Bool, List, ◌∷◌, Option, none, some, ◌≡◌, ◌≢◌, arith, length,
}
use gridappsd_go.Common.Maps.{lookup-delete}
use gridappsd_go.GoError.{GoError}
use gridappsd_go.Router.{reading, stopped, marked, reporting, Router, lookup_dest}
use gridappsd_go.Router.Reader.{
  Received, message, failure, closed, receive, set_phase, mark_done, deregister, report,
  is_registered, Others,
}
use gridappsd_go.Router.Publish.{length-publish_err}
use gridappsd_go.Router.Step.{
  Step, subscribes, unsubscribes, closes, receives, marks, deregisters, reports, consumes, Reach,
  start, later,
}
use gridappsd_go.Router.Invariant.{Inv, new-Inv, subscribe-Inv, unsubscribe-Inv, close-Inv}

module _ {H : Type 0} where
  -- A reader that is not gone moves on without closing `done` or leaving the registry.
  stop-Inv :
      (r : Router H) (i : ℕ) (t : Option GoError)
      → Inv r
      → i < r.spawned
      → (r.readers i).phase ≡ reading
      → Inv (set_phase r i (stopped t))
  unfolding set_phase
  stop-Inv r i t inv lt e = record {
    registered = λ d j f. ground (arith, inv.registered d j f);
    done_marked = λ j. ground (arith, inv.done_marked j);
    unspawned = λ j f. ground (arith, inv.unspawned j f);
    drawn = inv.drawn;
    own_token = inv.own_token;
    room = inv.room;
  }

  receive-Inv :
      (r : Router H) (i : ℕ) (m : Received)
      → Inv r
      → i < r.spawned
      → (r.readers i).phase ≡ reading
      → Inv (receive r i m).0
  unfolding receive
  receive-Inv r i (message body) inv lt e = inv
  receive-Inv r i (failure x) inv lt e = stop-Inv r i _ inv lt e
  receive-Inv r i closed inv lt e = stop-Inv r i none inv lt e

  mark_done-Inv :
      (r : Router H) (i : ℕ) (t : Option GoError)
      → Inv r
      → (r.readers i).phase ≡ stopped t
      → Inv (mark_done r i t)
  unfolding mark_done set_phase
  mark_done-Inv r i t inv e = record {
    registered = λ d j f. ground (arith, inv.registered d j f);
    done_marked = λ j. ground (arith, inv.done_marked j);
    unspawned = λ j f. ground (arith, inv.unspawned j f);
    drawn = λ j u x f. ground (arith, inv.drawn j u x);
    own_token = λ j k u x y f g. ground (arith, inv.own_token j k u x y);
    room = inv.room;
  }

  -- Whatever the registry is left with, the reader itself is not in it.
  deregistered-lookup :
      (r : Router H) (i : ℕ) (t : Option GoError) (d : Bytes) (j : ℕ)
      → Inv r
      → lookup_dest d (deregister r i t).dests ≡ some j
      → (lookup_dest d r.dests ≡ some j) × (i ≢ j)
  unfolding deregister is_registered set_phase
  deregistered-lookup r i t d j inv f =
      unfold lookup_dest in
      ground (arith, inv.registered d j, lookup-delete Bytes-discrete (r.readers i).dest d r.dests)

  deregister-Inv :
      (r : Router H) (i : ℕ) (t : Option GoError)
      → Inv r
      → (r.readers i).phase ≡ marked t
      → Inv (deregister r i t)
  deregister-Inv r i t inv e = record {
    registered = λ d j f.
        let (kept, other) = deregistered-lookup r i t d j inv f in
        unfold deregister set_phase in ground (arith, inv.registered d j kept);
    done_marked = λ j. unfold deregister set_phase in ground (arith, inv.done_marked j);
    unspawned = λ j f. unfold deregister set_phase in ground (arith, inv.unspawned j);
    drawn = λ j u x f. unfold deregister set_phase in ground (arith, inv.drawn j u x);
    own_token =
        λ j k u x y f g. unfold deregister set_phase in ground (arith, inv.own_token j k u x y);
    room = unfold deregister set_phase in ground (arith, inv.room);
  }

  report-Inv :
      (others : Others) (r : Router H) (i : ℕ) (t : Option GoError)
      → ((k : ℕ) (after : Bool) (p : List GoError)
          → length p ≤ r.err_cap
          → length (others k after p) ≤ r.err_cap)
      → Inv r
      → (r.readers i).phase ≡ reporting t
      → Inv (report others r i t)
  unfolding report set_phase
  report-Inv others r i none within inv e = record {
    registered = λ d j f. ground (arith, inv.registered d j f);
    done_marked = λ j. ground (arith, inv.done_marked j);
    unspawned = λ j f. ground (arith, inv.unspawned j f);
    drawn = inv.drawn;
    own_token = inv.own_token;
    room = inv.room;
  }
  report-Inv others r i (some x) within inv e = record {
    registered = λ d j f. ground (arith, inv.registered d j f);
    done_marked = λ j. ground (arith, inv.done_marked j);
    unspawned = λ j f. ground (arith, inv.unspawned j f);
    drawn = inv.drawn;
    own_token = inv.own_token;
    room = length-publish_err others x r.err_cap r.errs within inv.room;
  }

  consume-Inv :
      (r : Router H) (e : GoError) (q : List GoError)
      → Inv r
      → r.errs ≡ e ∷ q
      → Inv (record r { errs = q })
  consume-Inv r e q inv f = record {
    registered = inv.registered;
    done_marked = inv.done_marked;
    unspawned = inv.unspawned;
    drawn = inv.drawn;
    own_token = inv.own_token;
    room = ground (arith, inv.room);
  }

  -- Every step keeps the invariant.
  pub Step-Inv : {r s : Router H} → Step r s → Inv r → Inv s
  Step-Inv {r} (subscribes conn_subscribe dest h small) inv =
      subscribe-Inv conn_subscribe dest h r small inv
  Step-Inv {r} (unsubscribes dest tok) inv = unsubscribe-Inv dest tok r inv
  Step-Inv {r} closes inv = close-Inv r inv
  Step-Inv {r} (receives i m lt e) inv = receive-Inv r i m inv lt e
  Step-Inv {r} (marks i t e) inv = mark_done-Inv r i t inv e
  Step-Inv {r} (deregisters i t e) inv = deregister-Inv r i t inv e
  Step-Inv {r} (reports others i t within e) inv = report-Inv others r i t within inv e
  Step-Inv {r} (consumes e q f) inv = consume-Inv r e q inv f

  -- In every router that steps lead to: a registered destination has a reader that has not left the
  -- registry, and a handler; `done` is closed exactly when its reader is past its loop and has
  -- closed it; no token is over the counter or in two states; the error channel is within its
  -- capacity.
  pub Reach-Inv :
      {q : List GoError} {cap : ℕ} {r : Router H} → length q ≤ cap → Reach q cap r → Inv r
  Reach-Inv {q} {cap} h start = new-Inv q cap h
  Reach-Inv h (later reach step) = Step-Inv step (Reach-Inv h reach)
