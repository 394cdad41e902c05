-- ===== src/Stomp/Bridge/Slow/Progress.antt =====
-- internal/stomp/stomp.go: bridge goes on receiving from go-stomp, however slow its subscriber is.
use gridappsd_go.Stomp.Bridge.{Bridge}
use gridappsd_go.Stomp.Bridge.Slow.{Slow}
