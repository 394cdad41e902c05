-- ===== src/FieldBus/Overlap.antt =====
-- fieldbus/fieldbus.go: calls of a bus that overlap. The bus's lock is held over Connect and over a
-- few lines of each other call, which then goes on with the router and the connection it found: so
-- a router may still be used after its session. Routers are numbers, as in a heap, and share the
-- error channel of the bus.
pub mod Sound
use gridappsd_go.Common.{
  ℕ, zero, suc, ◌<◌, Bytes, Bool, true, false, List, [], ◌∷◌, ◌++◌, Option, none, some, ◌≡◌, ite,
  ℕ_discrete,
}
use gridappsd_go.GoError.{GoError, Result, ok, err}
use gridappsd_go.Common.Families.{update}
use gridappsd_go.Router.{Router, error_chan_buffer, new_with_error_chan}
use gridappsd_go.Router.Step.{Step}
use gridappsd_go.Client.{Config}

pub record World (H : Type 0) : Type 0 where
  pub cfg : Config
  pub conn : Option ℕ
  pub rtr : Option ℕ
  pub connected : Bool
  pub subject : Bytes
  pub errs : List GoError
  pub routers : ℕ → Router H
  pub made : ℕ

-- The connection of a session that Connect opens.
abbrev pub opening : Result ℕ → List ℕ
opening (ok conn) = conn ∷ []
opening (err e) = []

module _ {H : Type 0} where
  unfoldable pub new_world : Config → World H
  new_world cfg = record {
    cfg = cfg;
    conn = none;
    rtr = none;
    connected = false;
    subject = [];
    errs = [];
    routers = λ i. new_with_error_chan [] error_chan_buffer;
    made = zero;
  }

  -- Connect, on a bus that is not connected, with what gridappsd.Connect gives.
  unfoldable pub connect_world : Result ℕ → World H → World H
  connect_world (err e) w = w
  connect_world (ok conn) w = record w {
    conn = some conn;
    rtr = some w.made;
    connected = true;
    subject = w.cfg.user;
    routers = update w.routers w.made (new_with_error_chan w.errs error_chan_buffer);
    made = suc w.made;
  }

  -- The section of Disconnect under the lock.
  unfoldable pub drop_world : World H → World H
  drop_world w = record w { conn = none; rtr = none; connected = false }

  -- A router, with what the channel of the bus holds.
  abbrev pub shared : World H → ℕ → Router H
  shared w i = record (w.routers i) { errs = w.errs }

  unfoldable pub put_router : World H → ℕ → Router H → World H
  put_router w i r = record w { routers = update w.routers i r; errs = r.errs }

  -- `routes` is a step of any router that was ever made: of its readers, of a Subscribe or an
  -- Unsubscribe that found it under the lock, or of the Disconnect that closes it.
  -- The list grows by the connection of each session that is opened.
  pub data WorldStep (w : World H) (opened : List ℕ) : List ℕ → World H → Type 0 where
    connects :
        (session : Result ℕ)
        → w.connected ≡ false
        → WorldStep w opened (opening session ++ opened) (connect_world session w)
    disconnects : WorldStep w opened opened (drop_world w)
    routes :
        (i : ℕ) (r : Router H)
        → i < w.made
        → Step (shared w i) r
        → WorldStep w opened opened (put_router w i r)

  -- `opened` lists the connections of the sessions, the newest first.
  pub data WorldReach (cfg : Config) : List ℕ → World H → Type 0 where
    start : WorldReach cfg [] (new_world cfg)
    later :
        {o p : List ℕ} {w v : World H} → WorldReach cfg o w → WorldStep w o p v → WorldReach cfg p v
