-- ===== src/Stomp/Handshake.antt =====
-- internal/stomp/stomp.go: the heart-beats that Dial offers and the deadline that it leaves behind.
use gridappsd_go.Common.{
  ℕ, zero, suc, Bool, true, false, List, [], ◌∷◌, Option, some, none, ◌≡◌, refl, ◌⊎◌, inl, inr,
  arith, Option-cases,
}
use gridappsd_go.GoError.{Result}
use gridappsd_go.Transport.{Duration, pos, negsuc, is_zero, HeartBeatIntervals, ConnConfig}
use gridappsd_go.Stomp.{
  default_heart_beat, Dialer, resolve_heart_beat, DialCall, set_deadline, connect, connect_call,
  dial_calls, dial,
}

-- The deadline that stands on the connection after a run of calls.
abbrev pub deadline_after : Option ℕ → List DialCall → Option ℕ
deadline_after t [] = t
deadline_after t (set_deadline u ∷ calls) = deadline_after u calls
deadline_after t (connect l p s r b ∷ calls) = deadline_after t calls

-- The deadline under which CONNECT runs, if it is sent.
abbrev pub deadline_at_connect : Option ℕ → List DialCall → Option (Option ℕ)
deadline_at_connect t [] = none
deadline_at_connect t (set_deadline u ∷ calls) = deadline_at_connect u calls
deadline_at_connect t (connect l p s r b ∷ calls) = some t

-- CONNECT is sent, under the context's deadline where there is one and the connection takes it;
-- whatever Connect answers, no deadline is left on the connection afterwards.
pub dial_deadline :
    (stomp_connect : DialCall → Result ℕ) (can_set : Bool) (deadline : Option ℕ) (d : Dialer)
    (cfg : ConnConfig)
    → let calls = (dial stomp_connect can_set deadline d cfg).0 in
      (deadline_after none calls ≡ none)
      × (deadline_at_connect none calls ≡ some (elim can_set [ true ↦ deadline | false ↦ none ]))
unfolding dial dial_calls connect_call
dial_deadline stomp_connect true (some t) d cfg = ground arith
dial_deadline stomp_connect true none d cfg = ground arith
dial_deadline stomp_connect false deadline d cfg = ground arith

fallback : (t : Duration) → ((is_zero t ≡ true) × (t ≡ pos 0)) ⊎ (is_zero t ≡ false)
fallback (pos zero) = inl (refl, refl)
fallback (pos (suc n)) = inr refl
fallback (negsuc n) = inr refl

-- Intervals that are given are offered as they are, zeros included; otherwise both directions are
-- alike and never zero, and a heart-beat that is not zero is offered as it is.
resolve_heart_beat_lem :
    (cfg : ConnConfig)
    → ((intervals : HeartBeatIntervals) × (cfg.heart_beats ≡ some intervals)
        × (resolve_heart_beat cfg ≡ (intervals.send, intervals.recv)))
      ⊎ ((cfg.heart_beats ≡ none)
          × (t : Duration) × (resolve_heart_beat cfg ≡ (t, t))
          × (is_zero t ≡ false)
          × ((cfg.heart_beat ≡ pos 0) ⊎ (cfg.heart_beat ≡ t)))
unfolding resolve_heart_beat
resolve_heart_beat_lem cfg = elim (Option-cases cfg.heart_beats) [
  | inr (intervals, e) ↦ inl (intervals, e, ground arith)
  | inl e ↦ elim (fallback cfg.heart_beat) [
    | inl (z, f) ↦ inr (e, default_heart_beat, ground arith, refl, inl f)
    | inr z ↦ inr (e, cfg.heart_beat, ground arith, z, inr refl)
  ]
]
