-- ===== src/Client.antt =====
-- gridappsd/client.go: the choice of the transport, the TLS dial and Connect. The resolver, TCP and
-- TLS are the answers of a network; a connection is a number.
pub mod Dial
pub mod Failure
pub mod Session
pub mod Tests
use gridappsd_go.Common.{
  ℕ, Bytes, Bool, true, false, codes, List, [], ◌∷◌, Option, some, none, ◌||◌, ◌==◌, if◌then◌else◌,
}
use gridappsd_go.GoError.{
  GoError, ErrorId, value, handshake_timeout, deadline_exceeded, errors_is, errorf, errorf_w,
  errorf_ww, Result, ok, err,
}
use gridappsd_go.Transport.{Duration, pos, HeartBeatIntervals, ConnConfig}
use gridappsd_go.Auth.{Trace, Env, Credentials}
use gridappsd_go.Auth.Exchange.{exchange}

abbrev pub default_address : Bytes
default_address = codes "localhost:61613"

-- 5 * time.Second
abbrev pub default_handshake_timeout : Duration
default_handshake_timeout = pos 5_000_000_000

-- tls.VersionTLS12
abbrev pub version_tls12 : ℕ
version_tls12 = 0x0303

-- The fields of tls.Config that the client reads, and the rest of it.
pub record TlsConfig : Type 0 where
  pub server_name : Bytes
  pub min_version : ℕ
  pub settings : ℕ

-- `&tls.Config{}`
abbrev pub zero_tls_config : TlsConfig
zero_tls_config = record { server_name = []; min_version = 0; settings = 0 }

pub record Config : Type 0 where
  pub address : Bytes
  pub tls_config : Option TlsConfig
  pub allow_plaintext : Bool
  pub user : Bytes
  pub password : Bytes
  pub heart_beat : Duration
  pub heart_beats : Option HeartBeatIntervals

-- What a dial returns: the TCP connection, or the TLS client over it.
pub data NetConn : Type 0 where
  plain : (raw : ℕ) → NetConn
  tls : (raw : ℕ) → TlsConfig → NetConn

abbrev pub raw_conn : NetConn → ℕ
raw_conn (plain raw) = raw
raw_conn (tls raw cfg) = raw

pub data DialStep : Type 0 where
  tcp_dial : (addr : Bytes) → DialStep
  handshake : (raw : ℕ) → TlsConfig → (timeout : Option Duration) → DialStep
  close_raw : (raw : ℕ) → DialStep

-- What the network answers to one dial: net.SplitHostPort's host, DialContext, HandshakeContext,
-- and whether the context has a deadline.
pub record Network : Type 0 where
  pub split_host : Bytes → Result Bytes
  pub tcp : Result ℕ
  pub handshake_error : Option GoError
  pub has_deadline : Bool

abbrev pub Dialled : Type 0
Dialled = Result NetConn × List DialStep

-- The config of the handshake: a clone where the name or the version is to be filled in.
unfoldable pub fill_config : TlsConfig → Bytes → TlsConfig
fill_config cfg host = record cfg {
  server_name = elim cfg.server_name [ [] ↦ host | c ∷ s ↦ c ∷ s ];
  min_version = if cfg.min_version == 0 then version_tls12 else cfg.min_version;
}

unfoldable pub handshake_failure : Bytes → GoError → GoError
handshake_failure addr e =
    if errors_is deadline_exceeded e
    then errorf_ww "tls dial %q: %w: %w" (addr ∷ []) (value handshake_timeout) e
    else errorf_w "tls dial %q: handshake: %w" (addr ∷ []) e

module _ (net : Network) where
  unfoldable pub dial_plain : Bytes → Dialled
  dial_plain addr = elim net.tcp [
    | err e ↦ (err (errorf_w "tcp dial %q: %w" (addr ∷ []) e), tcp_dial addr ∷ [])
    | ok raw ↦ (ok (plain raw), tcp_dial addr ∷ [])
  ]

  unfoldable pub handshake_on : Bytes → TlsConfig → ℕ → Dialled
  handshake_on addr cfg raw =
      let timeout = if net.has_deadline then none else some default_handshake_timeout in
      let steps = tcp_dial addr ∷ handshake raw cfg timeout ∷ [] in
      elim net.handshake_error [
        | none ↦ (ok (tls raw cfg), steps)
        | some e ↦ (
          err (handshake_failure addr e),
          tcp_dial addr ∷ handshake raw cfg timeout ∷ close_raw raw ∷ [],
        )
      ]

  unfoldable pub dial_tls : Bytes → Option TlsConfig → Dialled
  dial_tls addr none = (err (errorf "tls dial %q: nil TLS config" (addr ∷ [])), [])
  dial_tls addr (some tls_cfg) = elim (net.split_host addr) [
    | err e ↦ (err (errorf_w "invalid address %q: %w" (addr ∷ []) e), [])
    | ok host ↦ elim net.tcp [
      | err e ↦ (err (errorf_w "tls dial %q: tcp connect: %w" (addr ∷ []) e), tcp_dial addr ∷ [])
      | ok raw ↦ handshake_on addr (fill_config tls_cfg host) raw
    ]
  ]

  unfoldable pub dial : Bytes → Option TlsConfig → Bool → Dialled
  dial addr (some cfg) allow_plaintext = dial_tls addr (some cfg)
  dial addr none true = dial_plain addr
  dial addr none false = dial_tls addr (some zero_tls_config)

unfoldable pub address_of : Config → Bytes
address_of cfg = elim cfg.address [ [] ↦ default_address | c ∷ s ↦ c ∷ s ]

-- A dial as the token exchange sees it.
unfoldable pub raw_result : Result NetConn → Result ℕ
raw_result (ok c) = ok (raw_conn c)
raw_result (err e) = err e

abbrev pub credentials : Config → Credentials
credentials cfg = record {
  user = cfg.user;
  pass = cfg.password;
  config = record {
    login = [];
    passcode = [];
    heart_beat = cfg.heart_beat;
    heart_beats = cfg.heart_beats;
  };
}

-- The exchange's network, with `networks` for the dials and the Dialer of internal/stomp, which has
-- WithDisconnectBound.
unfoldable pub exchange_env : Env → (Trace → Network) → Config → Env
exchange_env env networks cfg = record env {
  bounder = true;
  answer_net_dial =
      λ t. raw_result (dial (networks t) (address_of cfg) cfg.tls_config cfg.allow_plaintext).0;
}

unfoldable pub connect : Env → (Trace → Network) → Config → Result ℕ × Trace
connect env networks cfg =
    let (result, t) = exchange (exchange_env env networks cfg) (credentials cfg) [] in
    (
      elim result [
        | ok conn ↦ ok conn
        | err e ↦ err (errorf_w "gridappsd connect to %s: %w" (address_of cfg ∷ []) e)
      ],
      t,
    )
