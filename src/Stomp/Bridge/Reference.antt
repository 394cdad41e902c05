-- ===== src/Stomp/Bridge/Reference.antt =====
-- internal/stomp/stomp.go: bridge against a plain description of what a subscriber is given.
use gridappsd_go.Common.{
  ℕ, Bool, true, false, List, [], ◌∷◌, ◌++◌, Option, none, some, if_rule, ◌≡◌, refl, sym, inl, inr,
  ap, ◌∙◌, arith, append-nil, append_assoc, Option-cases,
}
use gridappsd_go.GoError.{GoError}
use gridappsd_go.Transport.{Msg}
use gridappsd_go.Stomp.Bridge.{
  StompMessage, forward, delivered, cancelled_inner, halted_inner, Select, received, source_closed,
  cancelled, halted, Bridge, new_bridge, end_out, unsubscribe_on_ctx, send_out, on_message,
  mark_if_ended, round, run,
}
use gridappsd_go.Stomp.Bridge.Order.{round_ends}
use gridappsd_go.Stomp.Bridge.Runs.{run_shut, run_exited, run-Tidy}

-- What a subscriber is given: each message in turn, until one is an error, the context is done, the
-- subscription is unsubscribed, or the source closes.
abbrev pub relay : List Select → List Msg
relay [] = []
relay (received m delivered ∷ es) = forward m ∷ elim m.error [ none ↦ relay es | some e ↦ [] ]
relay (received m cancelled_inner ∷ es) = []
relay (received m halted_inner ∷ es) = []
relay (source_closed ∷ es) = []
relay (cancelled ∷ es) = []
relay (halted ∷ es) = []

-- Whether the channel of the subscriber is open after a schedule: nothing of that came yet.
abbrev pub still_open : List Select → Bool
still_open [] = true
still_open (received m delivered ∷ es) = elim m.error [ none ↦ still_open es | some e ↦ false ]
still_open (received m cancelled_inner ∷ es) = false
still_open (received m halted_inner ∷ es) = false
still_open (source_closed ∷ es) = false
still_open (cancelled ∷ es) = false
still_open (halted ∷ es) = false

abbrev pub closes_source : List Select → Bool
closes_source [] = false
closes_source (source_closed ∷ es) = true
closes_source (received m inner ∷ es) = closes_source es
closes_source (cancelled ∷ es) = closes_source es
closes_source (halted ∷ es) = closes_source es

module _ (stomp_error : ℕ → Option Bool) where
  run_step :
      (b : Bridge) (e : Select) (es : List Select)
      → b.exited ≡ false
      → run stomp_error b (e ∷ es) ≡ run stomp_error (round stomp_error b e) es
  unfolding run
  run_step b e es x =
      if_rule (λ (d : Bridge). d ≡ run stomp_error (round stomp_error b e) es) b.exited (λ f. cc)
        (λ f. refl)

  run_next :
      (b : Bridge) (e : Select) (es : List Select)
      → b.exited ≡ false
      → (run stomp_error b (e ∷ es)).sent ≡ (run stomp_error (round stomp_error b e) es).sent
  run_next b e es x = ap (λ (d : Bridge). d.sent) (run_step b e es x)

  -- A message in the channel.
  deliver_fine :
      (b : Bridge) (m : StompMessage)
      → b.out_open ≡ true
      → m.error ≡ none
      → let b' = round stomp_error b (received m delivered) in
        (b'.out_open ≡ true) × (b'.exited ≡ b.exited) × (b'.sent ≡ b.sent ++ forward m ∷ [])
  unfolding round mark_if_ended on_message send_out forward
  deliver_fine b m o e = ground arith

  -- An error in the channel, which shuts it.
  deliver_last :
      (b : Bridge) (m : StompMessage) (x : GoError)
      → b.out_open ≡ true
      → m.error ≡ some x
      → let b' = round stomp_error b (received m delivered) in
        (b'.out_open ≡ false) × (b'.sent ≡ b.sent ++ forward m ∷ [])
  unfolding round mark_if_ended on_message send_out end_out forward
  deliver_last b m x o e = ground arith

  interrupted :
      (b : Bridge) (m : StompMessage)
      → b.out_open ≡ true
      → let c = round stomp_error b (received m cancelled_inner) in
        let h = round stomp_error b (received m halted_inner) in
        ((c.out_open ≡ false) × (c.sent ≡ b.sent)) × ((h.out_open ≡ false) × (h.sent ≡ b.sent))
  unfolding round mark_if_ended on_message unsubscribe_on_ctx end_out
  interrupted b m o = ground arith

  -- Once the channel is shut, what is sent stays.
  run_sent :
      (b : Bridge) (es : List Select) (ms : List Msg)
      → (b.out_open ≡ false) × (b.sent ≡ ms)
      → (run stomp_error b es).sent ≡ ms
  run_sent b es ms (shut, same) = (run_shut stomp_error b es shut).1 ∙ same

  run-relay_from :
      (b : Bridge) (es : List Select)
      → b.out_open ≡ true
      → b.exited ≡ false
      → (run stomp_error b es).sent ≡ b.sent ++ relay es
  run-relay_from b [] o x = unfold run in sym (append-nil b.sent)
  run-relay_from b (received m delivered ∷ es) o x =
      let b' = round stomp_error b (received m delivered) in
      elim (Option-cases m.error) [
        | inl e ↦
            let (o', x', q) = deliver_fine b m o e in
            run_next b _ es x
            ∙ run-relay_from b' es o' (x' ∙ x)
            ∙ ap (λ ms. ms ++ relay es) q
            ∙ append_assoc b.sent (forward m ∷ []) (relay es)
            ∙ rw e refl
        | inr (y, e) ↦ run_next b _ es x ∙ run_sent b' es _ (deliver_last b m y o e) ∙ rw e refl
      ]
  run-relay_from b (received m cancelled_inner ∷ es) o x =
      run_next b _ es x ∙ run_sent _ es b.sent (interrupted b m o).0 ∙ sym (append-nil b.sent)
  run-relay_from b (received m halted_inner ∷ es) o x =
      run_next b _ es x ∙ run_sent _ es b.sent (interrupted b m o).1 ∙ sym (append-nil b.sent)
  run-relay_from b (source_closed ∷ es) o x =
      run_next b _ es x
      ∙ run_sent _ es b.sent (round_ends stomp_error b).0
      ∙ sym (append-nil b.sent)
  run-relay_from b (cancelled ∷ es) o x =
      run_next b _ es x
      ∙ run_sent _ es b.sent (round_ends stomp_error b).1
      ∙ sym (append-nil b.sent)
  run-relay_from b (halted ∷ es) o x =
      run_next b _ es x
      ∙ run_sent _ es b.sent (round_ends stomp_error b).2
      ∙ sym (append-nil b.sent)

  -- Once the channel is shut, it stays so.
  run_closed :
      (b : Bridge) (e : Select) (es : List Select)
      → b.exited ≡ false
      → (round stomp_error b e).out_open ≡ false
      → (run stomp_error b (e ∷ es)).out_open ≡ false
  run_closed b e es x shut =
      ap (λ (d : Bridge). d.out_open) (run_step b e es x) ∙ (run_shut stomp_error _ es shut).0

  run-open_from :
      (b : Bridge) (es : List Select)
      → b.out_open ≡ true
      → b.exited ≡ false
      → (run stomp_error b es).out_open ≡ still_open es
  run-open_from b [] o x = unfold run in o
  run-open_from b (received m delivered ∷ es) o x =
      let b' = round stomp_error b (received m delivered) in
      elim (Option-cases m.error) [
        | inl e ↦
            let (o', x', q) = deliver_fine b m o e in
            ap (λ (d : Bridge). d.out_open) (run_step b _ es x)
            ∙ run-open_from b' es o' (x' ∙ x)
            ∙ rw e refl
        | inr (y, e) ↦ run_closed b _ es x (deliver_last b m y o e).0 ∙ rw e refl
      ]
  run-open_from b (received m cancelled_inner ∷ es) o x =
      run_closed b _ es x (interrupted b m o).0.0
  run-open_from b (received m halted_inner ∷ es) o x = run_closed b _ es x (interrupted b m o).1.0
  run-open_from b (source_closed ∷ es) o x = run_closed b _ es x (round_ends stomp_error b).0.0
  run-open_from b (cancelled ∷ es) o x = run_closed b _ es x (round_ends stomp_error b).1.0
  run-open_from b (halted ∷ es) o x = run_closed b _ es x (round_ends stomp_error b).2.0

  pub run-open : (es : List Select) → (run stomp_error new_bridge es).out_open ≡ still_open es
  unfolding new_bridge
  run-open es = run-open_from new_bridge es refl refl

  -- A subscriber is given exactly the messages of the plain description, on every schedule.
  pub run-relay : (es : List Select) → (run stomp_error new_bridge es).sent ≡ relay es
  unfolding new_bridge
  run-relay es = run-relay_from new_bridge es refl refl

  -- One round before the source closes, and the round in which it does.
  goes_on :
      (b : Bridge) (e : Select)
      → b.exited ≡ false
      → closes_source (e ∷ []) ≡ false
      → (round stomp_error b e).exited ≡ false
  unfolding round mark_if_ended on_message send_out unsubscribe_on_ctx end_out
  goes_on b (received m delivered) x n = ground arith
  goes_on b (received m cancelled_inner) x n = ground arith
  goes_on b (received m halted_inner) x n = ground arith
  goes_on b source_closed x n = cc
  goes_on b cancelled x n = ground arith
  goes_on b halted x n = ground arith

  exits : (b : Bridge) → (round stomp_error b source_closed).exited ≡ true
  unfolding round end_out
  exits b = ground arith

  run_going :
      (b : Bridge) (e : Select) (es : List Select) {x : Bool}
      → b.exited ≡ false
      → (run stomp_error (round stomp_error b e) es).exited ≡ x
      → (run stomp_error b (e ∷ es)).exited ≡ x
  run_going b e es x p = ap (λ (d : Bridge). d.exited) (run_step b e es x) ∙ p

  run-exited :
      (b : Bridge) (es : List Select)
      → b.exited ≡ false
      → (run stomp_error b es).exited ≡ closes_source es
  run-exited b [] x = unfold run in x
  run-exited b (received m inner ∷ es) x =
      run_going b (received m inner) es x (
        run-exited (round stomp_error b (received m inner)) es
          (goes_on b (received m inner) x refl))
  run-exited b (cancelled ∷ es) x =
      run_going b cancelled es x
        (run-exited (round stomp_error b cancelled) es (goes_on b cancelled x refl))
  run-exited b (halted ∷ es) x =
      run_going b halted es x (run-exited (round stomp_error b halted) es (goes_on b halted x refl))
  run-exited b (source_closed ∷ es) x =
      run_going b source_closed es x
        (ap (λ (d : Bridge). d.exited) (run_exited stomp_error _ es (exits b)) ∙ exits b)

  -- On a schedule, in which each select of the goroutine has an outcome, it ends exactly if go-stomp
  -- closes the source, and it has then closed the channel of the subscriber once.
  run_ends :
      (es : List Select)
      → let b = run stomp_error new_bridge es in
        (b.exited ≡ closes_source es)
        × (closes_source es ≡ true → (b.out_open ≡ false) × (b.closes ≡ 1))
  run_ends es =
      let tidy = (run-Tidy stomp_error es).0 in
      let same = run-exited new_bridge es (unfold new_bridge in refl) in
      (same, λ h. ground (arith, tidy.exit_closes (same ∙ h), tidy.closed_once))
