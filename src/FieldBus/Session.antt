-- ===== src/FieldBus/Session.antt =====
-- fieldbus/fieldbus.go: the sessions of a bus, as any sequence of its calls and of the steps of its
-- router.
use gridappsd_go.Common.{
  ℕ, Bytes, true, false, Option, some, none, ◌≡◌, refl, ◌⊎◌, inl, inr, if_rule, Option-cases,
}
use gridappsd_go.GoError.{GoError, Result, ok, err}
use gridappsd_go.Router.{Router, new_with_error_chan}
use gridappsd_go.Router.Step.{Step}
use gridappsd_go.Client.{Config}
use gridappsd_go.FieldBus.{
  Bus, new_bus, open_session, connect_bus, queued_errors, drop_session, disconnect_bus,
  subscribe_bus, unsubscribe_bus,
}

module _ {H : Type 0} where
  pub data BusStep (b : Bus H) : Bus H → Type 0 where
    connects : (session : Config → Result ℕ) → BusStep b (connect_bus session b).0
    disconnects :
        (conn_disconnect : ℕ → Option GoError) → BusStep b (disconnect_bus conn_disconnect b).0
    subscribes :
        (conn_subscribe : Bytes → Result ℕ) (dest : Bytes) (h : H)
        → BusStep b (subscribe_bus conn_subscribe dest h b).0
    unsubscribes :
        (sub_unsubscribe : ℕ → Option GoError) (dest : Bytes) (tok : ℕ)
        → BusStep b (unsubscribe_bus sub_unsubscribe dest tok b).0
    routes : (r s : Router H) → b.rtr ≡ some r → Step r s → BusStep b (record b { rtr = some s })

  pub data BusReach (cfg : Config) : Bus H → Type 0 where
    start : BusReach cfg (new_bus cfg)
    later : {b c : Bus H} → BusReach cfg b → BusStep b c → BusReach cfg c

  -- A bus with no session, or with a whole one.
  abbrev pub Whole : Bus H → Type 0
  Whole b =
      ((b.connected ≡ false) × (b.conn ≡ none) × (b.rtr ≡ none))
      ⊎ ((conn : ℕ) × (r : Router H) × (b.connected ≡ true)
          × (b.conn ≡ some conn)
          × (b.rtr ≡ some r)
          × (b.subject ≡ b.cfg.user))

  set_router-Whole :
      (b : Bus H) (r s : Router H) → b.rtr ≡ some r → Whole b → Whole (record b { rtr = some s })
  set_router-Whole b r s e (inl (off, c, n)) = absurd cc
  set_router-Whole b r s e (inr (conn, r', on, c, q, u)) = inr (conn, s, on, c, refl, u)

  open_session-Whole : (b : Bus H) (session : Result ℕ) → Whole b → Whole (open_session b session).0
  unfolding open_session
  open_session-Whole b (err e) w = w
  open_session-Whole b (ok conn) w = inr (conn, _, refl, refl, refl, refl)

  connect_bus-Whole :
      (session : Config → Result ℕ) (b : Bus H) → Whole b → Whole (connect_bus session b).0
  unfolding connect_bus
  connect_bus-Whole session b w =
      if_rule (λ (o : Bus H × Option GoError). Whole o.0) b.connected (λ f. w)
        (λ f. open_session-Whole b (session b.cfg) w)

  subscribe_bus-Whole :
      (f : Bytes → Result ℕ) (dest : Bytes) (h : H) (b : Bus H)
      → Whole b
      → Whole (subscribe_bus f dest h b).0
  unfolding subscribe_bus
  subscribe_bus-Whole f dest h b w = elim (Option-cases b.rtr) [
    | inl e ↦ rw (subscribe_bus, e) w
    | inr (r, e) ↦ rw (subscribe_bus, e) (set_router-Whole b r _ e w)
  ]

  unsubscribe_bus-Whole :
      (f : ℕ → Option GoError) (dest : Bytes) (tok : ℕ) (b : Bus H)
      → Whole b
      → Whole (unsubscribe_bus f dest tok b).0
  unfolding unsubscribe_bus
  unsubscribe_bus-Whole f dest tok b w = elim (Option-cases b.rtr) [
    | inl e ↦ rw (unsubscribe_bus, e) w
    | inr (r, e) ↦ rw (unsubscribe_bus, e) (set_router-Whole b r _ e w)
  ]

  BusStep-Whole : {b c : Bus H} → BusStep b c → Whole b → Whole c
  unfolding disconnect_bus drop_session
  BusStep-Whole (connects session) w = connect_bus-Whole session _ w
  BusStep-Whole (disconnects f) w = inl (refl, refl, refl)
  BusStep-Whole (subscribes f dest h) w = subscribe_bus-Whole f dest h _ w
  BusStep-Whole (unsubscribes f dest tok) w = unsubscribe_bus-Whole f dest tok _ w
  BusStep-Whole {b} (routes r s e step) w = set_router-Whole b r s e w

  -- After any calls and router steps a bus has either no connection, no router and says that it is
  -- not connected, or it has both, says that it is connected, and stamps the user of its config.
  BusReach-Whole : {cfg : Config} {b : Bus H} → BusReach cfg b → Whole b
  unfolding new_bus
  BusReach-Whole start = inl (refl, refl, refl)
  BusReach-Whole (later r s) = BusStep-Whole s (BusReach-Whole r)

  open_session_queued :
      (b : Bus H) (session : Result ℕ)
      → b.rtr ≡ none
      → queued_errors (open_session b session).0 ≡ b.errs
  unfolding open_session queued_errors new_with_error_chan
  open_session_queued b (err e) h = rw (h)
  open_session_queued b (ok conn) h = refl

  -- The errors that are queued outlast a Disconnect, and a Connect after it, whether that succeeds
  -- or not.
  pub reconnect_keeps :
      (conn_disconnect : ℕ → Option GoError) (session : Config → Result ℕ) (b : Bus H)
      → let d = (disconnect_bus conn_disconnect b).0 in
        (queued_errors d ≡ queued_errors b)
        × (queued_errors (connect_bus session d).0 ≡ queued_errors b)
  unfolding disconnect_bus drop_session connect_bus queued_errors
  reconnect_keeps conn_disconnect session b =
      (refl, open_session_queued (drop_session b) (session b.cfg) refl)
