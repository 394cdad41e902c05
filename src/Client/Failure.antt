-- ===== src/Client/Failure.antt =====
-- gridappsd/client.go: what a dial that fails leaves behind, and its error.
use gridappsd_go.Common.{
  ℕ, Bytes, Bool, true, false, List, [], ◌∷◌, Option, some, none, ◌≡◌, refl, ◌⊎◌, inl, inr, arith,
  ◌||◌, if◌then◌else◌, Option-cases, Bool-cases,
}
use gridappsd_go.GoError.{
  GoError, ErrorId, err_injective, handshake_timeout, deadline_exceeded, errors_is, ok, err,
  Result-cases, ok≢err,
}
use gridappsd_go.Transport.{Duration}
use gridappsd_go.Client.{
  TlsConfig, zero_tls_config, DialStep, tcp_dial, handshake, close_raw, Network,
  default_handshake_timeout, dial_plain, fill_config, handshake_failure, handshake_on, dial_tls,
  dial,
}

module _ (net : Network) where
  -- How a dial that fails leaves the network.
  abbrev pub LeftClean : Bytes → GoError → List DialStep → Type 0
  LeftClean addr x steps =
      ((e : GoError) × (net.split_host addr ≡ err e)
        × (steps ≡ [])
        × ((k : ErrorId) → errors_is k x ≡ errors_is k e))
      ⊎ ((e : GoError) × (net.tcp ≡ err e)
          × (steps ≡ tcp_dial addr ∷ [])
          × ((k : ErrorId) → errors_is k x ≡ errors_is k e))
      ⊎ ((raw : ℕ) × (cfg : TlsConfig) × (timeout : Option Duration) × (e : GoError) × (net.tcp
            ≡ ok raw)
          × (net.handshake_error ≡ some e)
          × (steps ≡ tcp_dial addr ∷ handshake raw cfg timeout ∷ close_raw raw ∷ [])
          × (timeout ≡ (if net.has_deadline then none else some default_handshake_timeout))
          × (errors_is handshake_timeout x
              ≡ (errors_is deadline_exceeded e || errors_is handshake_timeout e))
          × ((k : ErrorId) → errors_is k e ≡ true → errors_is k x ≡ true))

  handshake_failure-is :
      (addr : Bytes) (e : GoError)
      → let x = handshake_failure addr e in
        (errors_is handshake_timeout x
          ≡ (errors_is deadline_exceeded e || errors_is handshake_timeout e))
        × ((k : ErrorId) → errors_is k e ≡ true → errors_is k x ≡ true)
  unfolding handshake_failure errors_is
  handshake_failure-is addr e = elim (Bool-cases (errors_is deadline_exceeded e)) [
    | inl t ↦ rw (handshake_failure, t) (refl, (λ k h. ground (arith, h)))
    | inr f ↦ rw (handshake_failure, f) (refl, (λ k h. h))
  ]

  handshake_on-LeftClean :
      (addr : Bytes) (cfg : TlsConfig) (raw : ℕ) (x : GoError)
      → net.tcp ≡ ok raw
      → (handshake_on net addr cfg raw).0 ≡ err x
      → LeftClean addr x (handshake_on net addr cfg raw).1
  unfolding handshake_on
  handshake_on-LeftClean addr cfg raw x t h = elim (Option-cases net.handshake_error) [
    | inl e ↦ absurd (ok≢err (rw (handshake_on, e) at h))
    | inr (y, e) ↦
        let q = err_injective (rw (handshake_on, e) at h) in
        let (is, keeps) = handshake_failure-is addr y in
        rw (handshake_on, e) (rw (← q) (inr (inr (raw, cfg, _, y, t, refl, refl, refl, is, keeps))))
  ]

  dial_tls_reached :
      (addr : Bytes) (base : TlsConfig) (host : Bytes) (raw : ℕ)
      → net.split_host addr ≡ ok host
      → net.tcp ≡ ok raw
      → dial_tls net addr (some base) ≡ handshake_on net addr (fill_config base host) raw
  unfolding dial_tls handshake_on
  dial_tls_reached addr base host raw e e1 = rw (dial_tls, e, e1)

  dial_tls-LeftClean :
      (addr : Bytes) (base : TlsConfig) (x : GoError)
      → (dial_tls net addr (some base)).0 ≡ err x
      → LeftClean addr x (dial_tls net addr (some base)).1
  unfolding dial_tls errors_is
  dial_tls-LeftClean addr base x h = elim (Result-cases (net.split_host addr)) [
    | inl (y, e) ↦
        let q = err_injective (rw (dial_tls, e) at h) in
        rw (dial_tls, e) (rw (← q) (inl (y, refl, refl, λ k. refl)))
    | inr (host, e) ↦ elim (Result-cases net.tcp) [
      | inl (y, e1) ↦
          let q = err_injective (rw (dial_tls, e, e1) at h) in
          rw (dial_tls, e, e1) (rw (← q) (inr (inl (y, refl, refl, λ k. refl))))
      | inr (raw, e1) ↦
          let reached = dial_tls_reached addr base host raw e e1 in
          rw (reached) (handshake_on-LeftClean addr _ raw x e1 (rw reached at h))
    ]
  ]

  -- A dial that fails leaves no connection open: it made none, or it closes the one whose TLS
  -- handshake failed. A handshake has a timeout of the client's own exactly if the context has no
  -- deadline, and a handshake that exceeds a deadline gives an error in which errors.Is finds
  -- ErrHandshakeTimeout, and still whatever it finds in the error of the handshake.
  pub dial-LeftClean :
      (addr : Bytes) (tls_config : Option TlsConfig) (allow_plaintext : Bool) (x : GoError)
      → (dial net addr tls_config allow_plaintext).0 ≡ err x
      → LeftClean addr x (dial net addr tls_config allow_plaintext).1
  unfolding dial dial_plain errors_is
  dial-LeftClean addr (some cfg) allow x h = dial_tls-LeftClean addr cfg x h
  dial-LeftClean addr none false x h = dial_tls-LeftClean addr zero_tls_config x h
  dial-LeftClean addr none true x h = elim (Result-cases net.tcp) [
    | inl (y, e) ↦
        let q = err_injective (rw (dial_plain, e) at h) in
        rw (dial_plain, e) (rw (← q) (inr (inl (y, refl, refl, λ k. refl))))
    | inr (raw, e) ↦ absurd (ok≢err (rw (dial_plain, e) at h))
  ]
