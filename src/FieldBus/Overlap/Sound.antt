-- ===== src/FieldBus/Overlap/Sound.antt =====
-- fieldbus/fieldbus.go: what holds of a bus and of all its routers while calls overlap.
use gridappsd_go.Common.{
  ℕ, suc, ◌≤◌, ◌<◌, true, false, List, ◌∷◌, ◌++◌, ap, none, some, ◌≡◌, refl, ◌⊎◌, inl, inr, arith,
  length,
}
use gridappsd_go.GoError.{GoError, Result, ok, err}
use gridappsd_go.Router.{
  Router, error_chan_buffer, new_with_error_chan, subscribe, draw_token, set_handlers, spawn,
  drop_dest, close_locked,
}
use gridappsd_go.Common.Families.{update_rule}
use gridappsd_go.Router.Reader.{
  message, failure, closed, receive, mark_done, deregister, report, set_phase,
}
use gridappsd_go.Router.Registry.{subscribe_rule}
use gridappsd_go.Router.Removal.{unsubscribe_rule}
use gridappsd_go.Router.Step.{
  Step, subscribes, unsubscribes, closes, receives, marks, deregisters, reports, consumes,
}
use gridappsd_go.Router.Invariant.{Inv, new-Inv}
use gridappsd_go.Router.Invariant.Readers.{Step-Inv}
use gridappsd_go.Client.{Config}
use gridappsd_go.FieldBus.Overlap.{
  World, opening, new_world, connect_world, drop_world, shared, put_router, connects, disconnects,
  routes, WorldReach, start, later,
}

module _ {H : Type 0} where
  -- No step changes the capacity of the error channel.
  err_cap-Step : {r s : Router H} → Step r s → s.err_cap ≡ r.err_cap
  unfolding subscribe draw_token set_handlers spawn drop_dest close_locked mark_done deregister
      set_phase
  err_cap-Step {r} (subscribes f dest h small) =
      subscribe_rule (λ (p : Router H × Result ℕ). p.0.err_cap ≡ r.err_cap) f _ dest h
        (draw_token r) (λ i e. refl) (λ e x. refl) (λ sub x e. refl)
  err_cap-Step {r} (unsubscribes dest tok) =
      unsubscribe_rule (λ p. p.0.err_cap ≡ r.err_cap) dest tok r (λ e. refl) (λ i h hs e f. refl)
        (λ i e f. refl)
  err_cap-Step closes = refl
  err_cap-Step (receives i (message body) lt e) = unfold receive in refl
  err_cap-Step (receives i (failure x) lt e) = unfold receive in refl
  err_cap-Step (receives i closed lt e) = unfold receive in refl
  err_cap-Step (marks i t e) = refl
  err_cap-Step (deregisters i t e) = ground arith
  err_cap-Step (reports others i none within e) = unfold report in refl
  err_cap-Step (reports others i (some x) within e) = unfold report in refl
  err_cap-Step (consumes e q f) = refl

  Inv-errs :
      (r : Router H) (q : List GoError) → length q ≤ r.err_cap → Inv r → Inv (record r { errs = q })
  Inv-errs r q within inv = record {
    registered = inv.registered;
    done_marked = inv.done_marked;
    unspawned = inv.unspawned;
    drawn = inv.drawn;
    own_token = inv.own_token;
    room = within;
  }

  -- A bus with no session, or with the newest one of the sessions that were opened: its connection
  -- and the router that was made for it.
  abbrev pub Current : List ℕ → World H → Type 0
  Current opened w =
      ((w.connected ≡ false) × (w.conn ≡ none) × (w.rtr ≡ none))
      ⊎ ((conn : ℕ) × (before : List ℕ) × (w.connected ≡ true)
          × (opened ≡ conn ∷ before)
          × (w.conn ≡ some conn)
          × (w.rtr ≡ some (length before))
          × (w.subject ≡ w.cfg.user))

  pub record Sound (opened : List ℕ) (w : World H) : Type 0 where
    pub current : Current opened w
    pub one_router : w.made ≡ length opened
    pub cap : (i : ℕ) → i < w.made → (w.routers i).err_cap ≡ error_chan_buffer
    pub router_inv : (i : ℕ) → i < w.made → Inv (shared w i)
    pub room : length w.errs ≤ error_chan_buffer

  connect-Sound :
      (session : Result ℕ) (opened : List ℕ) (w : World H)
      → Sound opened w
      → Sound (opening session ++ opened) (connect_world session w)
  unfolding connect_world
  connect-Sound (err e) opened w s = s
  connect-Sound (ok conn) opened w s = record {
    current = inr (conn, opened, refl, refl, refl, ap some s.one_router, refl);
    one_router = ap suc s.one_router;
    cap = λ i lt. unfold new_with_error_chan in ground (arith, s.cap i);
    router_inv = λ i lt.
        update_rule (λ (r : Router H). Inv (record r { errs = w.errs })) w.routers w.made i _
          (λ same. unfold new_with_error_chan in new-Inv w.errs error_chan_buffer s.room)
          (λ other. s.router_inv i (omega arith));
    room = s.room;
  }

  drop-Sound : (opened : List ℕ) (w : World H) → Sound opened w → Sound opened (drop_world w)
  unfolding drop_world
  drop-Sound opened w s = record {
    current = inl (refl, refl, refl);
    one_router = s.one_router;
    cap = s.cap;
    router_inv = s.router_inv;
    room = s.room;
  }

  route-Sound :
      (opened : List ℕ) (w : World H) (i : ℕ) (r : Router H)
      → i < w.made
      → Step (shared w i) r
      → Sound opened w
      → Sound opened (put_router w i r)
  unfolding put_router
  route-Sound opened w i r lt step s = record {
    current = s.current;
    one_router = s.one_router;
    cap = λ j lt'. ground (arith, s.cap j, s.cap i, err_cap-Step step);
    router_inv = λ j lt'.
        update_rule (λ (u : Router H). Inv (record u { errs = r.errs })) w.routers i j r
          (λ same. Step-Inv step (s.router_inv i lt))
          (λ other.
            Inv-errs (shared w j) r.errs (omega (arith, within, s.cap j lt')) (s.router_inv j lt'));
    room = within;
  }
    where
      within : length r.errs ≤ error_chan_buffer
      within =
          omega (arith, (Step-Inv step (s.router_inv i lt)).room, s.cap i lt, err_cap-Step step)

  -- Whatever calls overlap, the bus has neither connection nor router, or the connection that its
  -- newest Connect got and the router made for it, and says so; every router ever made, also one whose session is over, keeps its
  -- invariant; and the error channel that they share stays within its capacity.
  pub WorldReach-Sound :
      {cfg : Config} {opened : List ℕ} {w : World H} → WorldReach cfg opened w → Sound opened w
  WorldReach-Sound start =
      unfold new_world in
      record {
        current = inl (refl, refl, refl);
        one_router = refl;
        cap = λ i lt. absurd (omega arith);
        router_inv = λ i lt. absurd (omega arith);
        room = omega arith;
      }
  WorldReach-Sound (later reach (connects session off)) =
      connect-Sound session _ _ (WorldReach-Sound reach)
  WorldReach-Sound (later reach disconnects) = drop-Sound _ _ (WorldReach-Sound reach)
  WorldReach-Sound (later reach (routes i r lt step)) =
      route-Sound _ _ i r lt step (WorldReach-Sound reach)
