-- ===== src/FieldBus/Tests.antt =====
-- Concrete cases of the bus.
use gridappsd_go.Common.{ℕ, Bytes, codes, true, [], Option, none, ◌≡◌}
use gridappsd_go.GoError.{ok}
use gridappsd_go.Transport.{pos}
use gridappsd_go.Topics.{normalize_destination}
use gridappsd_go.Client.{Config}
use gridappsd_go.FieldBus.{Bus, queued_errors, new_bus, connect_bus, disconnect_bus, subscribe_bus}
use gridappsd_go.FieldBus.Session.{
  BusReach, start, later, connects, disconnects, subscribes, reconnect_keeps,
}
use gridappsd_go.Common.{false, ◌∷◌, some}
use gridappsd_go.Message.{header_goss_has_subject, header_goss_subject}
use gridappsd_go.Client.Tests.{broker, default_config, networks, client_connects}
use gridappsd_go.FieldBus.{subject_headers, open_session, get_response_bus}
use gridappsd_go.Common.{Bytes-discrete, List, ◌++◌, ◌⊎◌}
use gridappsd_go.Common.Maps.{lookup}
use gridappsd_go.Message.{header_reply_to}
use gridappsd_go.ReqResp
use gridappsd_go.ReqResp.{
  bare_reply, get_response, ReplyCall, rand_read, send, receive, unsubscribe,
}
use gridappsd_go.ReqResp.Tests.{replying}
use gridappsd_go.FieldBus.Wire.{Durable, connected_bus, connected_response}
use gridappsd_go.FieldBus.Overlap
use gridappsd_go.FieldBus.Overlap.{
  World, new_world, connect_world, drop_world, shared, put_router, WorldReach,
}
use gridappsd_go.FieldBus.Overlap.Sound.{Sound, WorldReach-Sound}
use gridappsd_go.Router.{subscribe, new_with_error_chan}
use gridappsd_go.Router.Step
use gridappsd_go.Common.{arith, refl}

abbrev config : Config
config = record {
  address = [];
  tls_config = none;
  allow_plaintext = true;
  user = codes "u";
  password = codes "p";
  heart_beat = pos 0;
  heart_beats = none;
}

-- A bus that was connected, subscribed, disconnected and connected again.
abbrev reconnected : Bus ℕ
reconnected =
    (connect_bus (λ c. ok 2)
      (disconnect_bus (λ c. none)
        (subscribe_bus (λ d. ok 7) (codes "q") 5
          (connect_bus (λ c. ok 1) (new_bus config)).0).0).0).0

reconnected-BusReach : BusReach config reconnected
reconnected-BusReach =
    later
      (later (later (later start (connects (λ c. ok 1))) (subscribes (λ d. ok 7) (codes "q") 5))
        (disconnects (λ c. none)))
      (connects (λ c. ok 2))

reconnect_keeps_example :
    let d = (disconnect_bus (λ c. none) reconnected).0 in
    (queued_errors d ≡ queued_errors reconnected)
    × (queued_errors (connect_bus (λ c. ok 3) d).0 ≡ queued_errors reconnected)
reconnect_keeps_example = reconnect_keeps (λ c. none) (λ c. ok 3) reconnected

-- A session is dropped while a reader of its router goes on.
abbrev dropped : World ℕ
dropped = drop_world (connect_world (ok 1) (new_world config))

dropped-WorldReach : WorldReach config (1 ∷ []) dropped
unfolding new_world
dropped-WorldReach =
    Overlap.later (Overlap.later Overlap.start (Overlap.connects (ok 1) refl)) Overlap.disconnects

-- Its router still takes a Subscribe that found it before.
abbrev late : World ℕ
late = put_router dropped 0 (subscribe (λ d. ok 7) (codes "/queue/q") 5 (shared dropped 0)).0

late-WorldReach : WorldReach config (1 ∷ []) late
unfolding gridappsd_go.Common.ℕ_discrete
late-WorldReach = Overlap.later dropped-WorldReach (
    Overlap.routes 0 _ (unfold drop_world connect_world new_world in omega arith) (
      Step.subscribes (λ d. ok 7) (codes "/queue/q") 5
        (unfold drop_world connect_world new_world new_with_error_chan in omega arith)))

WorldReach-Sound_example : Sound (1 ∷ []) late
WorldReach-Sound_example = WorldReach-Sound late-WorldReach

bus_connects : (connected_bus ℕ broker networks default_config).1 ≡ none
unfolding connect_bus new_bus open_session
bus_connects = rw client_connects refl

connected_response_example :
    (conn : ℕ) × Durable broker networks default_config conn
    × (nonce : Bytes) × (sub : ℕ) × (headers : List (Bytes × Bytes)) × (waits : List ReplyCall)
    × (replying.random ≡ ok nonce)
    × (replying.subscribed ≡ ok sub)
    × ((get_response_bus
          (λ c. replying)
          (codes "q")
          (codes "k")
          (codes "b")
          (connected_bus ℕ broker networks default_config).0).1
        ≡ rand_read
            ∷ ReqResp.subscribe (codes "/queue/" ++ bare_reply nonce)
            ∷ send (normalize_destination (codes "q")) (codes "k") (codes "b") headers
            ∷ waits
          ++ unsubscribe sub ∷ [])
    × ((waits ≡ []) ⊎ (waits ≡ receive sub ∷ []))
    × (lookup Bytes-discrete header_reply_to headers ≡ some (bare_reply nonce))
    × (lookup Bytes-discrete header_goss_has_subject headers ≡ some (codes "true"))
    × (lookup Bytes-discrete header_goss_subject headers ≡ some (codes "u"))
    × ((get_response_bus
          (λ c. replying)
          (codes "q")
          (codes "k")
          (codes "b")
          (connected_bus ℕ broker networks default_config).0).0
        ≡ (get_response replying (record {
          dest = codes "q";
          content_type = codes "k";
          body = codes "b";
          base_headers = subject_headers (codes "u");
        })).0)
connected_response_example =
    connected_response ℕ broker networks default_config (λ c. replying) (codes "q") (codes "k")
      (codes "b") bus_connects (λ c. (7 ∷ [], refl)) (λ c. (2, refl))
