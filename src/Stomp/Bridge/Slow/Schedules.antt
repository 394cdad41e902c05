-- ===== src/Stomp/Bridge/Slow/Schedules.antt =====
-- internal/stomp/stomp.go: bridge over a slow subscriber runs by a schedule.
use gridappsd_go.Common.{ℕ, Bool, true, false, List, Option, none, some, ◌≡◌, ◌⊎◌}
use gridappsd_go.Stomp.Bridge.{StompMessage, Bridge, new_bridge, mark_if_ended, Select, run}
use gridappsd_go.Stomp.Bridge.Slow.{Slow}

module _ (stomp_error : ℕ → Option Bool) where
  -- Where the goroutine stands on a schedule: between two rounds, or in the inner select of one.
  abbrev pub Follows : Slow → List Select → Type 0
  Follows c es =
      let b = run stomp_error new_bridge es in
      ((c.waiting ≡ none) × (c.bridge ≡ b))
      ⊎ ((m : StompMessage) × (c.waiting ≡ some m)
          × (c.bridge ≡ mark_if_ended stomp_error b m)
          × (b.out_open ≡ true)
          × (b.exited ≡ false))
