-- ===== src/Stomp/Bridge/Order.antt =====
-- internal/stomp/stomp.go: one round of bridge, what it sends last and when it closes its channel.
use gridappsd_go.Common.{
  ℕ, ◌+◌, ◌≤◌, Bool, true, false, List, [], ◌∷◌, ◌++◌, Option, none, if◌then◌else◌, ◌≡◌, All,
  All-append, refl, ◌∙◌, ◌⊎◌, inl, inr, arith, Option-cases, if_rule, subst,
}
use gridappsd_go.Transport.{Msg}
use gridappsd_go.Stomp.Bridge.{
  StompMessage, ends_conn, forward, Inner, delivered, cancelled_inner, halted_inner, Select,
  received, source_closed, cancelled, halted, Bridge, end_out, unsubscribe_on_ctx, send_out,
  on_message, mark_if_ended, round,
}

abbrev pub AllFine : List Msg → Type 0
AllFine = All (λ m. m.error ≡ none)

-- No error is sent but perhaps in the last place, and none at all while the channel is open.
abbrev pub ErrorLast : Bool → List Msg → Type 0
ErrorLast is_open ms =
    AllFine ms
    ⊎ ((is_open ≡ false)
        × (before : List Msg) × (m : Msg) × (ms ≡ before ++ m ∷ [])
        × AllFine before)

-- s.ch is closed once at most, when `out` is nil; a bridge that has exited has closed it; one
-- goroutine at most was started to unsubscribe.
pub record Tidy (b : Bridge) : Type 0 where
  pub closed_once : b.closes ≡ (if b.out_open then 0 else 1)
  pub exit_closes : b.exited ≡ true → b.out_open ≡ false
  pub one_unsubscribe : b.unsubscribing + (if b.out_open then 1 else 0) ≤ 1

ErrorLast-open : (ms : List Msg) → ErrorLast true ms → AllFine ms
ErrorLast-open ms (inl h) = h
ErrorLast-open ms (inr (e, _, _, _, _)) = cc

ErrorLast-shut : (is_open : Bool) (ms : List Msg) → ErrorLast is_open ms → ErrorLast false ms
ErrorLast-shut is_open ms (inl h) = inl h
ErrorLast-shut is_open ms (inr (e, before, m, p, h)) = inr (refl, before, m, p, h)

AllFine-snoc : (ms : List Msg) (m : Msg) → AllFine ms → m.error ≡ none → AllFine (ms ++ m ∷ [])
AllFine-snoc ms m h e = All-append (λ n. n.error ≡ none) ms (m ∷ []) h (e, tt)

on_message-Tidy :
    (b : Bridge) (m : Msg) (inner : Inner)
    → Tidy b
    → b.out_open ≡ true
    → b.exited ≡ false
    → Tidy (on_message b m inner)
unfolding on_message send_out unsubscribe_on_ctx end_out
on_message-Tidy b m delivered tidy e f = ground arith
on_message-Tidy b m _ tidy e f = ground arith

-- What a step does to what was sent.
abbrev Keeps : Bridge → Bridge → Type 0
Keeps b b' = (b'.sent ≡ b.sent) × ((b'.out_open ≡ false) ⊎ (b'.out_open ≡ b.out_open))

ErrorLast-keep :
    (b b' : Bridge) → Keeps b b' → ErrorLast b.out_open b.sent → ErrorLast b'.out_open b'.sent
ErrorLast-keep b b' (e, inl f) h = rw (e, f) (ErrorLast-shut b.out_open b.sent h)
ErrorLast-keep b b' (e, inr f) h = rw (e, f) h

on_message-ErrorLast :
    (b : Bridge) (m : Msg) (inner : Inner)
    → AllFine b.sent
    → ErrorLast (on_message b m inner).out_open (on_message b m inner).sent
unfolding on_message send_out unsubscribe_on_ctx end_out
on_message-ErrorLast b m delivered h = elim (Option-cases m.error) [
  | inl e ↦ rw (e, send_out) (inl (AllFine-snoc b.sent m h e))
  | inr (x, e) ↦ inr (ground arith, b.sent, m, ground arith, h)
]
on_message-ErrorLast b m cancelled_inner h = inl (ground arith)
on_message-ErrorLast b m halted_inner h = inl (ground arith)

module _ (stomp_error : ℕ → Option Bool) where
  marked_bridge :
      (b : Bridge) (m : StompMessage)
      → let b' = mark_if_ended stomp_error b m in
        (b'.sent ≡ b.sent)
        × (b'.out_open ≡ b.out_open)
        × (b'.closes ≡ b.closes)
        × (b'.exited ≡ b.exited)
        × (b'.unsubscribing ≡ b.unsubscribing)
  unfolding mark_if_ended
  marked_bridge b m = ground arith

  mark_if_ended-Tidy :
      (b : Bridge) (m : StompMessage) → Tidy b → Tidy (mark_if_ended stomp_error b m)
  mark_if_ended-Tidy b m tidy = ground (arith, marked_bridge b m)

  pub round-Tidy :
      (b : Bridge) (e : Select) → Tidy b → b.exited ≡ false → Tidy (round stomp_error b e)
  unfolding round unsubscribe_on_ctx end_out
  round-Tidy b (received m inner) tidy e =
      let (_, same_open, _, same_exited, _) = marked_bridge b m in
      if_rule Tidy b.out_open
        (λ g.
          on_message-Tidy (mark_if_ended stomp_error b m) (forward m) inner
            (mark_if_ended-Tidy b m tidy) (same_open ∙ g) (same_exited ∙ e))
        (λ g. mark_if_ended-Tidy b m tidy)
  round-Tidy b source_closed tidy e = ground arith
  round-Tidy b cancelled tidy e = ground arith
  round-Tidy b halted tidy e = ground arith

  pub round-ErrorLast :
      (b : Bridge) (e : Select)
      → ErrorLast b.out_open b.sent
      → ErrorLast (round stomp_error b e).out_open (round stomp_error b e).sent
  unfolding round unsubscribe_on_ctx end_out
  round-ErrorLast b (received m inner) h =
      if_rule (λ (d : Bridge). ErrorLast d.out_open d.sent) b.out_open
        (λ g.
          on_message-ErrorLast (mark_if_ended stomp_error b m) (forward m) inner (
            rw (marked_bridge b m).0 (ErrorLast-open b.sent (subst (λ o. ErrorLast o b.sent) g h))))
        (λ g.
          ErrorLast-keep b (mark_if_ended stomp_error b m)
            ((marked_bridge b m).0, inr (marked_bridge b m).1) h)
  round-ErrorLast b source_closed h =
      ErrorLast-keep b (round stomp_error b source_closed) (ground arith) h
  round-ErrorLast b cancelled h = ErrorLast-keep b (round stomp_error b cancelled) (ground arith) h
  round-ErrorLast b halted h = ErrorLast-keep b (round stomp_error b halted) (ground arith) h

  -- A channel that is closed stays closed and gets no message.
  pub round_shut :
      (b : Bridge) (e : Select)
      → b.out_open ≡ false
      → ((round stomp_error b e).out_open ≡ false) × ((round stomp_error b e).sent ≡ b.sent)
  unfolding round unsubscribe_on_ctx end_out mark_if_ended
  round_shut b (received m inner) h = ground arith
  round_shut b _ h = ground arith

  -- A round sends the message that it receives, or the channel is closed after it.
  pub round_sends :
      (b : Bridge) (m : StompMessage) (inner : Inner)
      → let b' = round stomp_error b (received m inner) in
        (b'.sent ≡ b.sent ++ forward m ∷ []) ⊎ ((b'.out_open ≡ false) × (b'.sent ≡ b.sent))
  unfolding round on_message send_out unsubscribe_on_ctx end_out mark_if_ended
  round_sends b m delivered = ground arith
  round_sends b m _ = ground arith

  pub round_ends :
      (b : Bridge)
      → (((round stomp_error b source_closed).out_open ≡ false)
          × ((round stomp_error b source_closed).sent ≡ b.sent))
        × (((round stomp_error b cancelled).out_open ≡ false)
            × ((round stomp_error b cancelled).sent ≡ b.sent))
        × (((round stomp_error b halted).out_open ≡ false)
            × ((round stomp_error b halted).sent ≡ b.sent))
  unfolding round unsubscribe_on_ctx end_out
  round_ends b = ground arith

  -- What a round does to the count of markEnded calls, and to the end of the loop.
  abbrev pub Marks : Bridge → Bridge → ℕ → Bool → Type 0
  Marks b b' n done = (b'.marked ≡ b.marked + n) × (b'.exited ≡ (if done then true else b.exited))

  pub round-Marks :
      (b : Bridge)
      → ((m : StompMessage) (inner : Inner)
          → Marks b
              (round stomp_error b (received m inner))
              (if ends_conn stomp_error m.error then 1 else 0)
              false)
        × Marks b (round stomp_error b source_closed) 0 true
        × Marks b (round stomp_error b cancelled) 0 false
        × Marks b (round stomp_error b halted) 0 false
  unfolding round on_message send_out unsubscribe_on_ctx end_out mark_if_ended
  round-Marks b = ((λ m inner. received_marks m inner), ground arith, ground arith, ground arith)
    where
      received_marks :
          (m : StompMessage) (inner : Inner)
          → Marks b
              (round stomp_error b (received m inner))
              (if ends_conn stomp_error m.error then 1 else 0)
              false
      received_marks m delivered = ground arith
      received_marks m _ = ground arith
