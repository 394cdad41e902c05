-- ===== src/Router/Invariant.antt =====
-- internal/router/router.go: what holds of the registry, the handlers and the readers between any
-- two steps.
pub mod Readers
use gridappsd_go.Common.{
  ℕ, suc, ◌+◌, ◌%◌, ◌^◌, ◌≤◌, ◌<◌, Bytes, Bytes-discrete, Bool, true, false, List, [], ◌∷◌, Option,
  none, some, ite, ℕ_discrete, ◌≡◌, ◌≢◌, refl, ◌⊎◌, inl, inr, arith, length,
}
use gridappsd_go.Common.Maps.{lookup, insert, delete, lookup-insert, lookup-delete}
use gridappsd_go.GoError.{GoError, Result}
use gridappsd_go.Common.Families.{update}
use gridappsd_go.Router.{
  DestState, Phase, reading, stopped, marked, reporting, exited, Router, lookup_dest, live_state,
  set_handlers, drop_dest, spawn, new_with_error_chan, draw_token, subscribe, subscribe_locked,
  unsubscribe_locked, close_locked,
}
use gridappsd_go.Router.Registry.{live_state-some, subscribe_rule}
use gridappsd_go.Router.Removal.{drop_dest-lookup, unsubscribe_rule}

-- The reader has closed `done`.
abbrev pub is_marked : Phase → Bool
is_marked reading = false
is_marked (stopped t) = false
is_marked _ = true

-- The reader has left the registry for good.
abbrev pub is_gone : Phase → Bool
is_gone (reporting t) = true
is_gone exited = true
is_gone _ = false

module _ {H : Type 0} where
  pub record Inv (r : Router H) : Type 0 where
    pub registered :
        (d : Bytes) (i : ℕ)
        → lookup_dest d r.dests ≡ some i
        → (i < r.spawned)
          × ((r.readers i).dest ≡ d)
          × (is_gone (r.readers i).phase ≡ false)
          × ((r.states i).handlers ≢ [])
    pub done_marked : (i : ℕ) → (r.states i).done ≡ is_marked (r.readers i).phase
    pub unspawned :
        (i : ℕ) → r.spawned ≤ i → ((r.states i).handlers ≡ []) × ((r.readers i).phase ≡ reading)
    pub drawn :
        (i t : ℕ) (h : H) → lookup ℕ_discrete t (r.states i).handlers ≡ some h → t ≤ r.next_token
    pub own_token :
        (i j t : ℕ) (h k : H)
        → lookup ℕ_discrete t (r.states i).handlers ≡ some h
        → lookup ℕ_discrete t (r.states j).handlers ≡ some k
        → i ≡ j
    pub room : length r.errs ≤ r.err_cap

  pub new-Inv :
      (q : List GoError) (cap : ℕ) → length q ≤ cap → Inv (new_with_error_chan {H = H} q cap)
  unfolding new_with_error_chan lookup_dest lookup
  new-Inv q cap h = record {
    registered = λ d i e. cc;
    done_marked = λ i. refl;
    unspawned = λ i e. (refl, refl);
    drawn = λ i t x e. cc;
    own_token = λ i j t x y e f. cc;
    room = h;
  }

  insert-some : (t : ℕ) (h : H) (m : List (ℕ × H)) → insert ℕ_discrete t h m ≢ []
  unfolding insert
  insert-some t h [] = cc
  insert-some t h ((j, x) ∷ m) = ground arith

  attach-Inv :
      (r : Router H) (dest : Bytes) (i t : ℕ) (h : H)
      → Inv r
      → live_state r dest ≡ some i
      → r.next_token < t
      → Inv (
          set_handlers
            (record r { next_token = t })
            i
            (insert ℕ_discrete t h (r.states i).handlers))
  unfolding set_handlers
  attach-Inv r dest i t h inv live fresh = record {
    registered = λ d j e. ground (arith, inv.registered d j, insert-some t h (r.states i).handlers);
    done_marked = λ j. ground (arith, inv.done_marked j);
    unspawned = λ j e. ground (arith, inv.unspawned j e, spot);
    drawn = λ j u x e.
        ground (arith, inv.drawn j u x, lookup-insert ℕ_discrete t u h (r.states i).handlers);
    own_token = λ j k u x y e f. ground (
      arith,
      inv.own_token j k u x y,
      inv.drawn j u x,
      inv.drawn k u y,
      lookup-insert ℕ_discrete t u h (r.states i).handlers,
    );
    room = inv.room;
  }
    where
      spot : i < r.spawned
      spot = (inv.registered dest i (live_state-some r dest i live).0).0

  spawn-Inv :
      (r : Router H) (dest : Bytes) (sub t : ℕ) (h : H)
      → Inv r
      → r.next_token < t
      → Inv (spawn (record r { next_token = t }) dest sub t h)
  unfolding spawn lookup_dest
  spawn-Inv r dest sub t h inv fresh = record {
    registered = λ d j e.
        ground (arith, inv.registered d j, lookup-insert Bytes-discrete dest d r.spawned r.dests);
    done_marked = λ j. ground (arith, inv.done_marked j);
    unspawned = λ j e. ground (arith, inv.unspawned j);
    drawn = λ j u x e. unfold lookup in ground (arith, inv.drawn j u x);
    own_token = λ j k u x y e f.
        unfold lookup in ground (arith, inv.own_token j k u x y, inv.drawn j u x, inv.drawn k u y);
    room = inv.room;
  }

  draw-Inv : (r : Router H) (t : ℕ) → Inv r → r.next_token ≤ t → Inv (record r { next_token = t })
  draw-Inv r t inv le = record {
    registered = inv.registered;
    done_marked = inv.done_marked;
    unspawned = inv.unspawned;
    drawn = λ j u x e. ground (arith, inv.drawn j u x e);
    own_token = inv.own_token;
    room = inv.room;
  }

  pub subscribe-Inv :
      (conn_subscribe : Bytes → Result ℕ) (dest : Bytes) (h : H) (r : Router H)
      → suc r.next_token < 2 ^ 64
      → Inv r
      → Inv (subscribe conn_subscribe dest h r).0
  unfolding subscribe
  subscribe-Inv conn_subscribe dest h r small inv =
      let t = (r.next_token + 1) % 2 ^ 64 in
      let fresh : r.next_token < t = omega arith in
      subscribe_rule (λ p. Inv p.0) conn_subscribe t dest h (draw_token r)
        (λ i e. attach-Inv r dest i t h inv (unfold live_state in e) fresh)
        (λ e f. draw-Inv r t inv (omega arith)) (λ sub f e. spawn-Inv r dest sub t h inv fresh)

  keep_some-Inv :
      (r : Router H) (i t : ℕ) (hs : List (ℕ × H))
      → Inv r
      → i < r.spawned
      → delete ℕ_discrete t (r.states i).handlers ≡ hs
      → hs ≢ []
      → Inv (set_handlers r i hs)
  unfolding set_handlers
  keep_some-Inv r i t hs inv lt e some_left = record {
    registered = λ d j f. ground (arith, inv.registered d j f);
    done_marked = λ j. ground (arith, inv.done_marked j);
    unspawned = λ j f. ground (arith, inv.unspawned j f);
    drawn = λ j u x f.
        ground (arith, inv.drawn j u x, lookup-delete ℕ_discrete t u (r.states i).handlers);
    own_token = λ j k u x y f g.
        ground (arith, inv.own_token j k u x y, lookup-delete ℕ_discrete t u (r.states i).handlers);
    room = inv.room;
  }

  -- The last handler goes, and the destination with it.
  drop_last-Inv :
      (r : Router H) (dest : Bytes) (i : ℕ)
      → Inv r
      → lookup_dest dest r.dests ≡ some i
      → Inv (drop_dest (set_handlers r i []) dest i).0
  unfolding set_handlers drop_dest
  drop_last-Inv r dest i inv found = record {
    registered = λ d j f. ground (
      arith,
      inv.registered d j,
      inv.registered dest i found,
      drop_dest-lookup (set_handlers r i []) dest d i,
    );
    done_marked = λ j. ground (arith, inv.done_marked j);
    unspawned = λ j f. ground (arith, inv.unspawned j f);
    drawn = λ j u x f. unfold lookup in ground (arith, inv.drawn j u x);
    own_token = λ j k u x y f g. unfold lookup in ground (arith, inv.own_token j k u x y);
    room = inv.room;
  }

  pub unsubscribe-Inv :
      (dest : Bytes) (tok : ℕ) (r : Router H) → Inv r → Inv (unsubscribe_locked dest tok r).0
  unsubscribe-Inv dest tok r inv =
      unsubscribe_rule (λ p. Inv p.0) dest tok r (λ _. inv)
        (λ i h hs found e.
          keep_some-Inv r i tok (h ∷ hs) inv (inv.registered dest i found).0 e (λ f. cc))
        (λ i found e. drop_last-Inv r dest i inv found)

  pub close-Inv : (r : Router H) → Inv r → Inv (close_locked r).0
  unfolding close_locked
  close-Inv r inv = record {
    registered = λ d i e. unfold lookup_dest lookup in cc;
    done_marked = inv.done_marked;
    unspawned = inv.unspawned;
    drawn = inv.drawn;
    own_token = inv.own_token;
    room = inv.room;
  }
