-- ===== src/Stomp/Bridge/Runs.antt =====
-- internal/stomp/stomp.go: bridge over every schedule.
use gridappsd_go.Common.{
  ℕ, ◌+◌, Bool, true, false, List, [], ◌∷◌, ◌++◌, Option, if◌then◌else◌, if_rule, ◌≡◌, refl, sym,
  ap, ◌∙◌, ◌⊎◌, inl, inr, arith, append-nil, append_assoc,
}
use gridappsd_go.Transport.{Msg}
use gridappsd_go.Stomp.Bridge.{
  ends_conn, forward, Select, received, source_closed, cancelled, halted, Bridge, new_bridge, round,
  run,
}
use gridappsd_go.Stomp.Bridge.Order.{
  Tidy, ErrorLast, round-Tidy, round-ErrorLast, round_shut, round_sends, round_ends, round-Marks,
}

-- The messages of a schedule up to the close of the source, as they are forwarded.
abbrev pub arrivals : List Select → List Msg
arrivals [] = []
arrivals (received m inner ∷ es) = forward m ∷ arrivals es
arrivals (source_closed ∷ es) = []
arrivals (cancelled ∷ es) = arrivals es
arrivals (halted ∷ es) = arrivals es

module _ (stomp_error : ℕ → Option Bool) where
  -- How many of them tell that the connection has ended.
  abbrev pub endings : List Select → ℕ
  endings [] = 0
  endings (received m inner ∷ es) = (if ends_conn stomp_error m.error then 1 else 0) + endings es
  endings (source_closed ∷ es) = 0
  endings (cancelled ∷ es) = endings es
  endings (halted ∷ es) = endings es

  run_good :
      (b : Bridge) (es : List Select)
      → Tidy b
      → ErrorLast b.out_open b.sent
      → Tidy (run stomp_error b es)
        × ErrorLast (run stomp_error b es).out_open (run stomp_error b es).sent
  unfolding run
  run_good b [] tidy last = (tidy, last)
  run_good b (e ∷ es) tidy last =
      let rest = λ (f : b.exited ≡ false).
        run_good (round stomp_error b e) es (round-Tidy stomp_error b e tidy f)
          (round-ErrorLast stomp_error b e last) in
      if_rule (λ (d : Bridge). Tidy d × ErrorLast d.out_open d.sent) b.exited (λ f. (tidy, last))
        rest

  -- Whatever the schedule, bridge closes its channel once at most, has closed it when it exits,
  -- starts at most one goroutine to unsubscribe, and sends no message after an error.
  pub run-Tidy :
      (es : List Select)
      → Tidy (run stomp_error new_bridge es)
        × ErrorLast (run stomp_error new_bridge es).out_open (run stomp_error new_bridge es).sent
  unfolding new_bridge
  run-Tidy es = run_good new_bridge es (ground arith) (inl tt)

  -- What a run adds to what was sent.
  abbrev pub Extends : Bridge → List Msg → Bridge → Type 0
  Extends b ms d =
      (new left : List Msg) × (d.sent ≡ b.sent ++ new)
      × (ms ≡ new ++ left)
      × ((d.out_open ≡ false) ⊎ (left ≡ []))

  pub run_shut :
      (b : Bridge) (es : List Select)
      → b.out_open ≡ false
      → ((run stomp_error b es).out_open ≡ false) × ((run stomp_error b es).sent ≡ b.sent)
  unfolding run
  run_shut b [] h = (h, refl)
  run_shut b (e ∷ es) h =
      let (still, same) = round_shut stomp_error b e h in
      let (shut, kept) = run_shut (round stomp_error b e) es still in
      if_rule (λ (d : Bridge). (d.out_open ≡ false) × (d.sent ≡ b.sent)) b.exited (λ f. (h, refl))
        (λ f. (shut, kept ∙ same))

  -- Nothing more is sent.
  Extends-shut :
      (b d : Bridge) (ms : List Msg) → (d.out_open ≡ false) × (d.sent ≡ b.sent) → Extends b ms d
  Extends-shut b d ms (shut, same) = ([], ms, same ∙ sym (append-nil b.sent), refl, inl shut)

  run-Extends_shut :
      (b b' : Bridge) (es : List Select) (ms : List Msg)
      → (b'.out_open ≡ false) × (b'.sent ≡ b.sent)
      → Extends b ms (run stomp_error b' es)
  run-Extends_shut b b' es ms (shut, same) =
      let (shut', same') = run_shut b' es shut in
      Extends-shut b (run stomp_error b' es) ms (shut', same' ∙ same)

  -- One message was sent first.
  Extends-cons :
      (b b' d : Bridge) (m : Msg) (ms : List Msg)
      → b'.sent ≡ b.sent ++ m ∷ []
      → Extends b' ms d
      → Extends b (m ∷ ms) d
  Extends-cons b b' d m ms e (new, left, p, q, h) =
      (m ∷ new, left, p ∙ ap (λ x. x ++ new) e ∙ append_assoc b.sent (m ∷ []) new, ap (◌∷◌ m) q, h)

  run-Extends :
      (b : Bridge) (es : List Select) → Tidy b → Extends b (arrivals es) (run stomp_error b es)
  unfolding run
  run-Extends b [] tidy = ([], [], sym (append-nil b.sent), refl, inr refl)
  run-Extends b (received m inner ∷ es) tidy =
      let b' = round stomp_error b (received m inner) in
      let rest = λ (t : Tidy b'). run-Extends b' es t in
      if_rule (Extends b (forward m ∷ arrivals es)) b.exited
        (λ f. Extends-shut b b _ (tidy.exit_closes f, refl))
        (λ f. elim (round_sends stomp_error b m inner) [
          | inl sent ↦
              Extends-cons b b' (run stomp_error b' es) (forward m) (arrivals es) sent
                (rest (round-Tidy stomp_error b _ tidy f))
          | inr shut ↦ run-Extends_shut b b' es _ shut
        ])
  run-Extends b (source_closed ∷ es) tidy =
      if_rule (Extends b []) b.exited (λ f. Extends-shut b b _ (tidy.exit_closes f, refl))
        (λ f. run-Extends_shut b _ es _ (round_ends stomp_error b).0)
  run-Extends b (cancelled ∷ es) tidy =
      if_rule (Extends b (arrivals es)) b.exited
        (λ f. Extends-shut b b _ (tidy.exit_closes f, refl))
        (λ f. run-Extends_shut b _ es _ (round_ends stomp_error b).1)
  run-Extends b (halted ∷ es) tidy =
      if_rule (Extends b (arrivals es)) b.exited
        (λ f. Extends-shut b b _ (tidy.exit_closes f, refl))
        (λ f. run-Extends_shut b _ es _ (round_ends stomp_error b).2)

  -- What bridge has sent is a beginning of what go-stomp delivered, in its order and with nothing
  -- left out; it is all of it while the channel is open.
  run_prefix :
      (es : List Select)
      → let b = run stomp_error new_bridge es in
        (left : List Msg) × (arrivals es ≡ b.sent ++ left) × ((b.out_open ≡ false) ⊎ (left ≡ []))
  run_prefix es =
      let (new, left, p, q, h) = run-Extends new_bridge es (unfold new_bridge in ground arith) in
      (left, q ∙ ap (λ x. x ++ left) (sym (unfold new_bridge in p)), h)

  pub run_exited : (b : Bridge) (es : List Select) → b.exited ≡ true → run stomp_error b es ≡ b
  unfolding run
  run_exited b [] h = refl
  run_exited b (e ∷ es) h = if_rule (λ (d : Bridge). d ≡ b) b.exited (λ f. refl) (λ f. cc)

  run-marked :
      (b : Bridge) (es : List Select)
      → b.exited ≡ false
      → (run stomp_error b es).marked ≡ b.marked + endings es
  unfolding run
  run-marked b [] h = omega arith
  run-marked b (received m inner ∷ es) h =
      let b' = round stomp_error b (received m inner) in
      ground (arith, (round-Marks stomp_error b).0 m inner, run-marked b' es)
  run-marked b (source_closed ∷ es) h =
      ground (arith, round-Marks stomp_error b, run_exited (round stomp_error b source_closed) es)
  run-marked b (cancelled ∷ es) h =
      ground (arith, round-Marks stomp_error b, run-marked (round stomp_error b cancelled) es)
  run-marked b (halted ∷ es) h =
      ground (arith, round-Marks stomp_error b, run-marked (round stomp_error b halted) es)

  -- Every message that tells of the connection's end is noticed until go-stomp closes the source,
  -- also those that come after bridge has closed its channel.
  pub run_marks : (es : List Select) → (run stomp_error new_bridge es).marked ≡ endings es
  unfolding new_bridge
  run_marks es = omega (arith, run-marked new_bridge es refl)
