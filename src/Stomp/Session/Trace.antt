-- ===== src/Stomp/Session/Trace.antt =====
-- internal/stomp/stomp.go: what a connection asks of go-stomp, against the order that go-stomp bears.
use gridappsd_go.Common.{
  ℕ, suc, zero, ◌+◌, ◌-◌, Bool, true, false, List, [], ◌∷◌, Option, none, some, subst,
  if◌then◌else◌, if_rule, ite, ℕ_discrete, ◌≡◌, ◌≢◌, refl, inl, inr, arith, Bool-cases,
}
use gridappsd_go.Common.Families.{update}
use gridappsd_go.Transport.{is_positive}
use gridappsd_go.GoError.{value, disconnected}
use gridappsd_go.Stomp.{ConnSettings}
use gridappsd_go.Stomp.Gate.{finished, Conn, mark_ended, begin_unsubscribe, end_unsubscribe}
use gridappsd_go.Stomp.Bridge.{Select, round}
use gridappsd_go.Stomp.Calls.{
  EndCall, must_disconnect, start_timer, graceful_disconnect, finish_disconnect,
}
use gridappsd_go.Stomp.Session.{
  attempting, over, Event, unsubscribe_begun, unsubscribe_returned, frame_seen, end_asked, Session,
  set_attempt, sees_end, bridge_round, begin_attempt,
}

-- How many unsubscribes are under way, whether an end was asked for, whether the end was seen, and
-- how often subscription `i` was unsubscribed, after the events.
abbrev pub pending : List Event → ℕ
pending [] = 0
pending (unsubscribe_begun i ∷ w) = suc (pending w)
pending (unsubscribe_returned i ∷ w) = pending w - 1
pending (frame_seen i ∷ w) = pending w
pending (end_asked calls ∷ w) = pending w

abbrev pub asked : List Event → Bool
asked [] = false
asked (end_asked calls ∷ w) = true
asked (unsubscribe_begun i ∷ w) = asked w
asked (unsubscribe_returned i ∷ w) = asked w
asked (frame_seen i ∷ w) = asked w

abbrev pub seen : List Event → Bool
seen [] = false
seen (frame_seen i ∷ w) = true
seen (unsubscribe_begun i ∷ w) = seen w
seen (unsubscribe_returned i ∷ w) = seen w
seen (end_asked calls ∷ w) = seen w

abbrev pub begun : ℕ → List Event → ℕ
begun i [] = 0
begun i (unsubscribe_begun j ∷ w) = ite (ℕ_discrete j i) 1 0 + begun i w
begun i (unsubscribe_returned j ∷ w) = begun i w
begun i (frame_seen j ∷ w) = begun i w
begun i (end_asked calls ∷ w) = begun i w

-- The calls of a Disconnect: without a receipt if the end was seen, else under a timer if the
-- connection has a bound.
abbrev pub end_calls : ConnSettings → Bool → List EndCall
end_calls c true = must_disconnect ∷ []
end_calls c false =
    if is_positive c.close_after
    then start_timer c.close_after ∷ graceful_disconnect ∷ []
    else graceful_disconnect ∷ []

-- The order that go-stomp bears, the newest event first: each subscription is unsubscribed once,
-- and an unsubscribe begins, and one that has begun returns, before any end is asked for; an end
-- is asked for while none is under way, by the calls that fit what was seen.
abbrev pub Legal : ConnSettings → List Event → Type 0
Legal c [] = Unit {0}
Legal c (unsubscribe_begun i ∷ w) = (asked w ≡ false) × (begun i w ≡ 0) × Legal c w
Legal c (unsubscribe_returned i ∷ w) = (asked w ≡ false) × (pending w ≢ 0) × Legal c w
Legal c (frame_seen i ∷ w) = Legal c w
Legal c (end_asked calls ∷ w) = (pending w ≡ 0) × (calls ≡ end_calls c (seen w)) × Legal c w

-- The count that an unsubscribe leaves.
pub end_unsubs : (c : Conn) (n : ℕ) → (end_unsubscribe (record c { unsubs = n })).unsubs ≡ n - 1
unfolding end_unsubscribe
end_unsubs c zero = refl
end_unsubs c (suc n) = omega arith

pub end_calls_lem :
    (c : ConnSettings) (ended : Bool)
    → (finish_disconnect c ended false none none).0 ≡ end_calls c ended
unfolding finish_disconnect
end_calls_lem c true = refl
end_calls_lem c false = elim (Bool-cases (is_positive c.close_after)) [
  | inl e ↦ rw (finish_disconnect, e) refl
  | inr e ↦ rw (finish_disconnect, e) refl
]

module _ (stomp_error : ℕ → Option Bool) (settings : ConnSettings) where
  -- What the other fields are after a round and after the start of an attempt.
  pub round_rule {κ} :
      (P : Session → Type κ) (s : Session) (i : ℕ) (e : Select)
      → let moved : Session = record s {
        subs =
            update s.subs i (record (s.subs i) { bridge = round stomp_error (s.subs i).bridge e });
      } in
        (sees_end stomp_error settings e ≡ true
          → P (record moved { conn = mark_ended s.conn; events = frame_seen i ∷ s.events }))
        → (sees_end stomp_error settings e ≡ false → P moved)
        → P (bridge_round stomp_error settings s i e)
  unfolding bridge_round
  round_rule P s i e yes' no' = if_rule P (sees_end stomp_error settings e) yes' no'

  pub begin_rule {κ} :
      (P : Session → Type κ) (s : Session) (i : ℕ)
      → (s.conn.closing ≡ true → P (set_attempt s i (over (finished (some (value disconnected))))))
      → (s.conn.closing ≡ false
          → P (record (set_attempt s i attempting) {
            conn = record s.conn { unsubs = suc s.conn.unsubs };
            events = unsubscribe_begun i ∷ s.events;
          }))
      → P (begin_attempt stomp_error settings s i)
  unfolding begin_attempt begin_unsubscribe
  begin_rule P s i shut opened = elim (Bool-cases s.conn.closing) [
    | inl e ↦ subst P (ground arith) (shut e)
    | inr e ↦ subst P (ground arith) (opened e)
  ]
