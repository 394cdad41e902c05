-- ===== src/Stomp/Gate/Order.antt =====
-- internal/stomp/stomp.go: no unsubscribe is under way while Disconnect closes the connection.
use gridappsd_go.Common.{
  ℕ, suc, Bool, true, false, some, none, ◌≡◌, ◌≢◌, refl, ◌⊎◌, ◌↔◌, inl, inr, arith, Bool-cases,
}
use gridappsd_go.GoError.{value, disconnected}
use gridappsd_go.Stomp.Gate.{
  DisconnectPhase, idle, closing_transport, graceful, Conn, new_conn, set_caller, mark_ended,
  begin_unsubscribe, end_unsubscribe, begin_disconnect, choose_disconnect, GateStep,
  begins_unsubscribe, ends_unsubscribe, marks_ended, disconnects, chooses, returns, GateReach,
  StompOutcome, returned, panicked, panicked_other, finished, repanicked, recovered,
  gated_unsubscribe, start, later,
}

abbrev pub is_closing : DisconnectPhase → Bool
is_closing closing_transport = true
is_closing graceful = true
is_closing _ = false

pub record Ordered (c : Conn) : Type 0 where
  pub refuses : (i : ℕ) → c.callers i ≢ idle → c.closing ≡ true
  pub waited : (i : ℕ) → is_closing (c.callers i) ≡ true → c.unsubs ≡ 0

pub GateStep-Ordered : {c d : Conn} → GateStep c d → Ordered c → Ordered d
unfolding begin_unsubscribe end_unsubscribe mark_ended begin_disconnect choose_disconnect set_caller
GateStep-Ordered begins_unsubscribe inv = record {
  refuses = λ i h. ground (arith, inv.refuses i);
  waited = λ i h. ground (arith, inv.refuses i, inv.waited i);
}
GateStep-Ordered (ends_unsubscribe e) inv = record {
  refuses = inv.refuses;
  waited = λ i h. ground (arith, inv.waited i h);
}
GateStep-Ordered marks_ended inv = record { refuses = inv.refuses; waited = inv.waited }
GateStep-Ordered (disconnects i e) inv = record {
  refuses = λ j h. refl;
  waited = λ j h. ground (arith, inv.waited j);
}
GateStep-Ordered (chooses i e f) inv = record {
  refuses = λ j h. ground (arith, inv.refuses i, inv.refuses j);
  waited = λ j h. f;
}
GateStep-Ordered (returns i e) inv = record {
  refuses = λ j h. ground (arith, inv.refuses j);
  waited = λ j h. ground (arith, inv.waited j);
}

-- Whatever the interleaving: while any Disconnect closes the connection, no unsubscribe is under
-- way, and none begins any more; from its start every new unsubscribe is refused.
pub GateReach-Ordered : {c : Conn} → GateReach c → Ordered c
unfolding new_conn
GateReach-Ordered start = record { refuses = λ i h. absurd (h refl); waited = λ i h. refl }
GateReach-Ordered (later r s) = GateStep-Ordered s (GateReach-Ordered r)

recovered-panics :
    (outcome : StompOutcome) (n : ℕ)
    → (recovered outcome ≡ repanicked n) ↔ (outcome ≡ panicked_other n)
unfolding recovered
recovered-panics (returned none) n = ((λ h. cc), (λ h. cc))
recovered-panics (returned (some e)) n = ((λ h. cc), (λ h. cc))
recovered-panics (panicked m) n = ((λ h. cc), (λ h. cc))
recovered-panics (panicked_other m) n = ((λ h. cc), (λ h. cc))

-- One attempt to unsubscribe: a connection that is closing refuses it with errDisconnected and is
-- left alone; any other has its count of pending unsubscribes balanced when the attempt is over,
-- and a panic passes on exactly if it is no runtime.Error.
gated_unsubscribe_lem :
    (outcome : StompOutcome) (meanwhile : Conn → Conn) (c : Conn)
    → ((d : Conn) → (meanwhile d).unsubs ≡ d.unsubs)
    → let (c', result) = gated_unsubscribe outcome meanwhile c in
      ((c.closing ≡ true) × (c' ≡ c) × (result ≡ finished (some (value disconnected))))
      ⊎ ((c.closing ≡ false)
          × (c'.unsubs ≡ c.unsubs)
          × ((n : ℕ) → (result ≡ repanicked n) ↔ (outcome ≡ panicked_other n)))
unfolding gated_unsubscribe begin_unsubscribe end_unsubscribe
gated_unsubscribe_lem outcome meanwhile c balanced = elim (Bool-cases c.closing) [
  | inl e ↦ inl (e, ground arith, ground arith)
  | inr e ↦ inr (
    e,
    ground (arith, balanced (record c { unsubs = suc c.unsubs })),
    λ n. rw (e, gated_unsubscribe) (recovered-panics outcome n),
  )
]
