-- ===== src/Pipeline/Tests.antt =====
-- A message on its way to a handler at a concrete schedule.
use gridappsd_go.Common.{ℕ, Bytes, codes, Bool, [], ◌∷◌, Option, none, some, ◌≡◌, refl}
use gridappsd_go.GoError.{value, foreign, Result, ok}
use gridappsd_go.Router.{Router, new, subscribe}
use gridappsd_go.Stomp.Bridge.{
  StompMessage, Select, received, delivered, source_closed, new_bridge, run,
}
use gridappsd_go.Common.{List, ltb}
use gridappsd_go.Pipeline.{read_loop, Handled, bodies, outcome, read_loop-run}

abbrev no_frame : ℕ → Option Bool
no_frame n = none

abbrev body_a : StompMessage
body_a = record { body = codes "a"; destination = codes "q"; error = none }

abbrev broken : StompMessage
broken = record { body = []; destination = []; error = some (value (foreign 1)) }

-- Two messages, an error, and a message after it.
abbrev schedule : List Select
schedule =
    received body_a delivered
    ∷ received body_a delivered
    ∷ received broken delivered
    ∷ received body_a delivered
    ∷ source_closed
    ∷ []

two_bodies : bodies schedule ≡ codes "a" ∷ codes "a" ∷ []
two_bodies = refl

first_error : outcome schedule ≡ some (value (foreign 1))
first_error = refl

abbrev transport : Bytes → Result ℕ
transport dest = ok 5

abbrev one : Router ℕ
one = (subscribe transport (codes "q") 7 new).0

read_loop-run_example :
    let b = run no_frame new_bridge schedule in
    Handled one 0 schedule (read_loop one 0 b.sent (ltb 0 b.closes))
read_loop-run_example = read_loop-run no_frame one 0 schedule
