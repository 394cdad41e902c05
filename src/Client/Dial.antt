-- ===== src/Client/Dial.antt =====
-- gridappsd/client.go: dial and dialTLS against the transport-selection matrix of Config.
use gridappsd_go.Common.{
  ℕ, Bytes, Bool, true, false, [], Option, some, none, ◌≡◌, ◌≢◌, refl, sym, ◌⊎◌, inl, inr, arith,
  Option-cases, List-cases,
}
use gridappsd_go.GoError.{ok, Result-cases, ok≢err, ok_injective}
use gridappsd_go.Client.{
  TlsConfig, zero_tls_config, version_tls12, NetConn, plain, tls, Network, dial_plain, fill_config,
  handshake_on, dial_tls, dial,
}

-- The config of a handshake, of the base that is given and the host of the address: only an empty
-- name and a version of 0 are filled in, the version with TLS 1.2.
pub record Filled (base : TlsConfig) (host : Bytes) (cfg : TlsConfig) : Type 0 where
  pub name_filled : base.server_name ≡ [] → cfg.server_name ≡ host
  pub name_kept : base.server_name ≢ [] → cfg.server_name ≡ base.server_name
  pub version_filled : base.min_version ≡ 0 → cfg.min_version ≡ version_tls12
  pub version_kept : base.min_version ≢ 0 → cfg.min_version ≡ base.min_version
  pub settings_kept : cfg.settings ≡ base.settings

fill_config-Filled : (base : TlsConfig) (host : Bytes) → Filled base host (fill_config base host)
unfolding fill_config
fill_config-Filled base host = record {
  name_filled = λ h. ground arith;
  name_kept = λ h. elim (List-cases base.server_name) [
    | inl e ↦ absurd (h e)
    | inr (c, s, e) ↦ rw (e, fill_config) refl
  ];
  version_filled = λ h. ground arith;
  version_kept = λ h. ground arith;
  settings_kept = refl;
}

-- The base of the TLS config, where the matrix asks for TLS.
abbrev pub tls_base : Option TlsConfig → Bool → Option TlsConfig
tls_base (some cfg) allow_plaintext = some cfg
tls_base none true = none
tls_base none false = some zero_tls_config

module _ (net : Network) where
  -- A TLS dial that succeeds.
  dial_tls_ok :
      (addr : Bytes) (base : TlsConfig) (c : NetConn)
      → (dial_tls net addr (some base)).0 ≡ ok c
      → (host : Bytes) × (raw : ℕ) × (net.split_host addr ≡ ok host)
        × (net.tcp ≡ ok raw)
        × (net.handshake_error ≡ none)
        × (c ≡ tls raw (fill_config base host))
  unfolding dial_tls handshake_on
  dial_tls_ok addr base c h = elim (Result-cases (net.split_host addr)) [
    | inl (x, e) ↦ absurd (ok≢err (sym (rw (dial_tls, e) at h)))
    | inr (host, e) ↦ elim (Result-cases net.tcp) [
      | inl (x, e1) ↦ absurd (ok≢err (sym (rw (dial_tls, e, e1) at h)))
      | inr (raw, e1) ↦ elim (Option-cases net.handshake_error) [
        | inr (x, e2) ↦ absurd (ok≢err (sym (rw (dial_tls, e, e1, handshake_on, e2) at h)))
        | inl e2 ↦
            (host, raw, e, e1, e2, sym (ok_injective (rw (dial_tls, e, e1, handshake_on, e2) at h)))
      ]
    ]
  ]

  dial_plain_ok :
      (addr : Bytes) (c : NetConn)
      → (dial_plain net addr).0 ≡ ok c
      → (raw : ℕ) × (net.tcp ≡ ok raw) × (c ≡ plain raw)
  unfolding dial_plain
  dial_plain_ok addr c h = elim (Result-cases net.tcp) [
    | inl (x, e) ↦ absurd (ok≢err (sym (rw (dial_plain, e) at h)))
    | inr (raw, e) ↦ (raw, e, sym (ok_injective (rw (dial_plain, e) at h)))
  ]

  -- A connection that dial gives.
  abbrev pub Selected : Bytes → Option TlsConfig → Bool → NetConn → Type 0
  Selected addr tls_config allow_plaintext c =
      ((tls_base tls_config allow_plaintext ≡ none)
        × (raw : ℕ) × (net.tcp ≡ ok raw)
        × (c ≡ plain raw))
      ⊎ ((base : TlsConfig) × (host : Bytes) × (raw : ℕ) × (cfg : TlsConfig) × (tls_base tls_config
              allow_plaintext
            ≡ some base)
          × (net.split_host addr ≡ ok host)
          × (net.tcp ≡ ok raw)
          × (net.handshake_error ≡ none)
          × Filled base host cfg
          × (c ≡ tls raw cfg))

  tls_base-Selected :
      (addr : Bytes) (tls_config : Option TlsConfig) (allow : Bool) (base : TlsConfig) (c : NetConn)
      → tls_base tls_config allow ≡ some base
      → (dial_tls net addr (some base)).0 ≡ ok c
      → Selected addr tls_config allow c
  tls_base-Selected addr tls_config allow base c b h =
      let (host, raw, s, t, e, q) = dial_tls_ok addr base c h in
      inr (base, host, raw, fill_config base host, b, s, t, e, fill_config-Filled base host, q)

  -- A connection that dial gives is a plain one exactly if there is no TLS config and plaintext is
  -- allowed. Any other has completed a TLS handshake with the config given, or the zero config, in
  -- which only an empty server name and a version of 0 are filled in, with the host of the address
  -- and TLS 1.2.
  pub dial_ok :
      (addr : Bytes) (tls_config : Option TlsConfig) (allow_plaintext : Bool) (c : NetConn)
      → (dial net addr tls_config allow_plaintext).0 ≡ ok c
      → Selected addr tls_config allow_plaintext c
  unfolding dial
  dial_ok addr (some cfg) allow c h = tls_base-Selected addr (some cfg) allow cfg c refl h
  dial_ok addr none false c h = tls_base-Selected addr none false zero_tls_config c refl h
  dial_ok addr none true c h = let (raw, t, q) = dial_plain_ok addr c h in inl (refl, raw, t, q)
