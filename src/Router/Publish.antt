-- ===== src/Router/Publish.antt =====
-- internal/router/router.go: publishErr makes a bounded number of rounds, keeps the channel within
-- its capacity, and queues its error where the others only read from the channel meanwhile.
use gridappsd_go.Common.{
  ℕ, zero, suc, ◌-◌, Bool-cases, inl, inr, ◌≤◌, ◌<◌, Bool, true, false, List, [], ◌∷◌, ◌++◌,
  if◌then◌else◌, length, ltb, length-append, ◌≡◌, arith,
}
use gridappsd_go.GoError.{GoError}
use gridappsd_go.Router.{error_chan_buffer}
use gridappsd_go.Router.Reader.{Others, discard_oldest, publish_loop, publish_err}

length-discard_oldest : (q : List GoError) {n : ℕ} → length q ≤ n → length (discard_oldest q) ≤ n
length-discard_oldest [] h = h
length-discard_oldest (x ∷ q) h = omega arith

-- No other goroutine touches the channel.
abbrev pub undisturbed : Others
undisturbed rounds after q = q

-- The rounds never overfill the channel, whatever the other goroutines do within its capacity.
publish_loop-length :
    (others : Others) (rounds : ℕ) (e : GoError) (cap : ℕ) (q : List GoError)
    → ((k : ℕ) (after : Bool) (p : List GoError) → length p ≤ cap → length (others k after p) ≤ cap)
    → length q ≤ cap
    → length (publish_loop others rounds e cap q) ≤ cap
unfolding publish_loop
publish_loop-length others zero e cap q within h = h
publish_loop-length others (suc rounds) e cap q within h =
    let p = others rounds false q in
    let left = others rounds true (discard_oldest p) in
    let h' : length left ≤ cap =
      within rounds true (discard_oldest p) (length-discard_oldest p (within rounds false q h)) in
    ground (arith, length-append q (e ∷ []), publish_loop-length others rounds e cap left within h')

-- Two rounds are enough where no other goroutine fills the channel in between.
publish_loop_twice :
    (rounds : ℕ) (e : GoError) (cap : ℕ) (q : List GoError)
    → 0 < cap
    → length q ≤ cap
    → publish_loop undisturbed (suc (suc rounds)) e cap q
      ≡ (if ltb (length q) cap then q else discard_oldest q) ++ e ∷ []
unfolding publish_loop
publish_loop_twice rounds e cap [] h k = ground arith
publish_loop_twice rounds e cap (x ∷ q) h k = ground arith

-- On a buffered channel that no other goroutine touches meanwhile, the new error is queued last;
-- nothing is dropped while there is room, and the oldest error alone where there is none.
pub publish_err_keeps :
    (e : GoError) (cap : ℕ) (q : List GoError)
    → 0 < cap
    → length q ≤ cap
    → publish_err undisturbed e cap q
      ≡ (if ltb (length q) cap then q else discard_oldest q) ++ e ∷ []
unfolding publish_err
publish_err_keeps e cap q h k = publish_loop_twice 15 e cap q h k

-- Where the other goroutines add nothing to the channel meanwhile, two rounds are enough.
publish_loop_through :
    (others : Others) (rounds : ℕ) (e : GoError) (cap : ℕ) (q : List GoError)
    → ((k : ℕ) (after : Bool) (p : List GoError) → length (others k after p) ≤ length p)
    → 0 < cap
    → length q ≤ cap
    → (before : List GoError) × (publish_loop others (suc (suc rounds)) e cap q ≡ before ++ e ∷ [])
unfolding publish_loop
publish_loop_through others rounds e cap q drains some_room within =
    let p = others (suc rounds) false q in
    let left = others (suc rounds) true (discard_oldest p) in
    let short : length left < cap = omega (
      arith,
      drains (suc rounds) false q,
      drains (suc rounds) true (discard_oldest p),
      discard_oldest-shorter p,
    ) in
    elim (Bool-cases (ltb (length q) cap)) [
      | inl e1 ↦ (q, ground (arith, e1))
      | inr e1 ↦ (left, ground (arith, e1, short))
    ]
  where
    discard_oldest-shorter : (p : List GoError) → length (discard_oldest p) ≤ length p - 1
    discard_oldest-shorter [] = omega arith
    discard_oldest-shorter (x ∷ p) = omega arith

-- An error is queued last on a channel with a buffer that the other goroutines meanwhile only read
-- from.
pub publish_err_through :
    (others : Others) (e : GoError) (cap : ℕ) (q : List GoError)
    → ((k : ℕ) (after : Bool) (p : List GoError) → length (others k after p) ≤ length p)
    → 0 < cap
    → length q ≤ cap
    → (before : List GoError) × (publish_err others e cap q ≡ before ++ e ∷ [])
unfolding publish_err
publish_err_through others e cap q drains some_room within =
    publish_loop_through others 15 e cap q drains some_room within

pub length-publish_err :
    (others : Others) (e : GoError) (cap : ℕ) (q : List GoError)
    → ((k : ℕ) (after : Bool) (p : List GoError) → length p ≤ cap → length (others k after p) ≤ cap)
    → length q ≤ cap
    → length (publish_err others e cap q) ≤ cap
unfolding publish_err
length-publish_err others e cap q within h =
    publish_loop-length others (suc error_chan_buffer) e cap q within h
