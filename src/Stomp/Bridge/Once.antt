-- ===== src/Stomp/Bridge/Once.antt =====
-- internal/stomp/stomp.go: sub.Unsubscribe, which makes one attempt behind a sync.Once.
use gridappsd_go.Common.{
  ℕ, suc, Bool, true, false, List, [], ◌∷◌, Option, none, if◌then◌else◌, ◌≡◌, refl, All, length, ap,
}
use gridappsd_go.GoError.{GoError}
use gridappsd_go.Stomp.Gate.{Outcome, finished, repanicked}

-- The fields `once` and `err` of sub, and how often `stop` was closed.
pub record SubOnce : Type 0 where
  pub done : Bool
  pub stop_closes : ℕ
  pub error : Option GoError

unfoldable pub new_once : SubOnce
new_once = record { done = false; stop_closes = 0; error = none }

-- `attempt` is what s.unsubscribe would do. A panic leaves the Once done and `err` unset.
unfoldable pub unsubscribe_once : Outcome → SubOnce → SubOnce × Outcome
unsubscribe_once attempt s = if s.done then (s, finished s.error) else elim attempt [
  | finished e ↦ (record { done = true; stop_closes = suc s.stop_closes; error = e }, finished e)
  | repanicked n ↦
      (record { done = true; stop_closes = suc s.stop_closes; error = s.error }, repanicked n)
]

-- Calls in the order in which they pass the Once.
unfoldable pub unsubscribe_calls : List Outcome → SubOnce → SubOnce × List Outcome
unsubscribe_calls [] s = (s, [])
unsubscribe_calls (a ∷ as') s =
    let (s', o) = unsubscribe_once a s in let (s'', os) = unsubscribe_calls as' s' in (s'', o ∷ os)

-- After the first call.
abbrev used : ℕ → Option GoError → SubOnce
used n e = record { done = true; stop_closes = n; error = e }

calls_used :
    (attempts : List Outcome) (n : ℕ) (e : Option GoError)
    → let (s, os) = unsubscribe_calls attempts (used n e) in
      All (λ o. o ≡ finished e) os × (length os ≡ length attempts) × (s ≡ used n e)
unfolding unsubscribe_calls unsubscribe_once
calls_used [] n e = (tt, refl, refl)
calls_used (a ∷ attempts) n e =
    let (all, k, same) = calls_used attempts n e in ((refl, all), ap suc k, same)

-- However often Unsubscribe is called, the attempt is made once, `stop` is closed once, and every
-- call returns that attempt's result.
unsubscribe_calls_agree :
    (e : Option GoError) (later : List Outcome)
    → let (s, os) = unsubscribe_calls (finished e ∷ later) new_once in
      All (λ o. o ≡ finished e) os
      × (length os ≡ suc (length later))
      × (s.stop_closes ≡ 1)
      × (s.error ≡ e)
unfolding unsubscribe_calls unsubscribe_once new_once
unsubscribe_calls_agree e later =
    let (all, k, same) = calls_used later 1 e in
    (
      (refl, all),
      ap suc k,
      ap (λ (s : SubOnce). s.stop_closes) same,
      ap (λ (s : SubOnce). s.error) same,
    )
