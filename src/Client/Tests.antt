-- ===== src/Client/Tests.antt =====
-- Concrete cases of the dial and of Connect.
use gridappsd_go.Common.{codes, true, false, [], ◌∷◌, Option, some, none, ◌≡◌, refl}
use gridappsd_go.Utf8.{decode_rune}
use gridappsd_go.GoError.{GoError, value, deadline_exceeded, ok, err}
use gridappsd_go.Transport.{pos, Msg}
use gridappsd_go.Auth.{Trace, arrived, returned, Env}
use gridappsd_go.Auth.Encoding.{trim_space, runes, trim_left, trim_right, is_space}
use gridappsd_go.Auth.Exchange.{
  read_token, send_request, subscribe_reply, request_token, settle, credential_leg, credential_dial,
  fetch_token, durable_dial, durable_leg, exchange,
}
use gridappsd_go.Auth.Steps.{
  bound, join_steps, recover_unsubscribe, unsubscribe_step, disconnect_step, finish_teardown,
  end_credential_conn,
}
use gridappsd_go.Client.{
  TlsConfig, Config, tls, Network, dial, dial_tls, handshake_on, handshake_failure, fill_config,
  address_of, raw_result, exchange_env, connect,
}
use gridappsd_go.Client.Dial.{Selected, dial_ok}
use gridappsd_go.Client.Failure.{LeftClean, dial-LeftClean}

-- A network that answers, with or without the TLS handshake.
abbrev network : Option GoError → Network
network handshake_error = record {
  split_host = λ addr. ok (codes "localhost");
  tcp = ok 8;
  handshake_error = handshake_error;
  has_deadline = false;
}

abbrev silent_peer : Network
silent_peer = network (some (value deadline_exceeded))

abbrev filled_config : TlsConfig
filled_config = record { server_name = codes "localhost"; min_version = 0x0303; settings = 0 }

dials_tls : (dial (network none) (codes "a:1") none false).0 ≡ ok (tls 8 filled_config)
unfolding dial dial_tls handshake_on fill_config
dials_tls = refl

times_out :
    (dial silent_peer (codes "a:1") none false).0
    ≡ err (handshake_failure (codes "a:1") (value deadline_exceeded))
unfolding dial dial_tls handshake_on fill_config
times_out = refl

abbrev token_reply : Msg
token_reply = record { body = codes "t"; destination = codes "d"; error = none }

abbrev pub broker : Env
broker = record {
  bounder = true;
  answer_net_dial = λ t. ok 3;
  answer_dial = λ t. ok 4;
  answer_random = λ t. ok (1 ∷ []);
  answer_subscribe = λ t. ok 5;
  answer_send = λ t. none;
  answer_receive = λ t. arrived token_reply;
  answer_unsubscribe = λ t. returned none;
  answer_disconnect = λ t. none;
  ctx_err = λ t. none;
  saw_done = λ t. true;
  close_ran = λ t. true;
}

abbrev pub default_config : Config
default_config = record {
  address = [];
  tls_config = none;
  allow_plaintext = false;
  user = codes "u";
  password = codes "p";
  heart_beat = pos 0;
  heart_beats = none;
}

abbrev pub networks : Trace → Network
networks t = network none

pub client_connects : (connect broker networks default_config).0 ≡ ok 4
unfolding connect exchange_env address_of raw_result dial dial_tls handshake_on fill_config exchange
    fetch_token credential_dial credential_leg request_token subscribe_reply send_request read_token
    trim_space runes trim_left trim_right is_space decode_rune settle end_credential_conn
    unsubscribe_step disconnect_step finish_teardown recover_unsubscribe bound join_steps
    durable_leg durable_dial
client_connects = refl

dial_ok_example : Selected (network none) (codes "a:1") none false (tls 8 filled_config)
dial_ok_example = dial_ok (network none) (codes "a:1") none false (tls 8 filled_config) dials_tls

dial-LeftClean_example :
    LeftClean silent_peer
      (codes "a:1")
      (handshake_failure (codes "a:1") (value deadline_exceeded))
      (dial silent_peer (codes "a:1") none false).1
dial-LeftClean_example = dial-LeftClean silent_peer (codes "a:1") none false _ times_out
