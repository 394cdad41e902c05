-- ===== src/FieldBus/Calls.antt =====
-- fieldbus/fieldbus.go: destinations in the calls of the bus, and the headers that it stamps.
use gridappsd_go.Common.{ℕ, Bytes, Option, ◌≡◌, inl, inr, Option-cases}
use gridappsd_go.GoError.{GoError, Result}
use gridappsd_go.Topics.{normalize_destination}
use gridappsd_go.Topics.Normal.{normalize_destination_idem}
use gridappsd_go.FieldBus.{Bus, Sent, subscribe_bus, unsubscribe_bus, send_bus}

module _ {H : Type 0} where
  -- Subscribe, Unsubscribe and Send treat a destination and its normalized form alike, on every
  -- bus.
  calls_normalize :
      (b : Bus H) (dest : Bytes)
      → ((f : Bytes → Result ℕ) (h : H)
          → subscribe_bus f (normalize_destination dest) h b ≡ subscribe_bus f dest h b)
        × ((f : ℕ → Option GoError) (tok : ℕ)
            → unsubscribe_bus f (normalize_destination dest) tok b ≡ unsubscribe_bus f dest tok b)
        × ((f : Sent → Option GoError) (kind body : Bytes)
            → send_bus f (normalize_destination dest) kind body b ≡ send_bus f dest kind body b)
  unfolding subscribe_bus unsubscribe_bus send_bus
  calls_normalize b dest =
      let same = (normalize_destination_idem dest).1 in
      (
        λ f h. elim (Option-cases b.rtr) [
          | inl e ↦ rw (subscribe_bus, e)
          | inr (x, e) ↦ rw (subscribe_bus, e, same)
        ],
        λ f tok. elim (Option-cases b.rtr) [
          | inl e ↦ rw (unsubscribe_bus, e)
          | inr (x, e) ↦ rw (unsubscribe_bus, e, same)
        ],
        λ f kind body. elim (Option-cases b.conn) [
          | inl e ↦ rw (send_bus, e)
          | inr (x, e) ↦ rw (send_bus, e, same)
        ],
      )
