-- ===== src/Auth/Tests.antt =====
-- Concrete cases of the token exchange.
use gridappsd_go.Common.{true, [], ◌∷◌, codes, some, none, ◌≡◌, refl}
use gridappsd_go.GoError.{GoError, ok}
use gridappsd_go.Transport.{pos, Msg}
use gridappsd_go.Auth.{arrived, returned, Env, Credentials}
use gridappsd_go.Utf8.{decode_rune}
use gridappsd_go.Auth.Encoding.{trim_space, runes, trim_left, trim_right, is_space}
use gridappsd_go.Auth.Exchange.{exchange}
use gridappsd_go.Auth.Token.{exchange-Prepared, Prepared, start}
use gridappsd_go.Common.{length, ◌≤◌, arith, true}
use gridappsd_go.Escape.{escape_bounded, escape_loop, next_token, escape_token, hex_pad, hex_digit}
use gridappsd_go.Escape.Printable.{Printable}
use gridappsd_go.Auth.Text.{bounded_text, step_text}
use gridappsd_go.Auth.Text.Bounds.{step_text_bounds}

abbrev cred : Credentials
cred = record {
  user = codes "u";
  pass = codes "p";
  config = record {
    login = codes "x";
    passcode = codes "y";
    heart_beat = pos 0;
    heart_beats = none;
  };
}

abbrev token_reply : Msg
token_reply = record { body = codes " t\n"; destination = codes "d"; error = none }

-- A broker that answers every request, under a context that stays live.
abbrev answering : Env
answering = record {
  bounder = true;
  answer_net_dial = λ t. ok 3;
  answer_dial = λ t. ok 4;
  answer_random = λ t. ok (1 ∷ []);
  answer_subscribe = λ t. ok 5;
  answer_send = λ t. none;
  answer_receive = λ t. arrived token_reply;
  answer_unsubscribe = λ t. returned none;
  answer_disconnect = λ t. none;
  ctx_err = λ t. none;
  saw_done = λ t. true;
  close_ran = λ t. true;
}

-- The space around the token is trimmed.
token_is_trimmed : trim_space (codes " t\n") ≡ codes "t"
unfolding trim_space runes trim_left trim_right is_space decode_rune
token_is_trimmed = refl

exchange-Prepared_example : Prepared cred (exchange answering cred []).1
exchange-Prepared_example = exchange-Prepared answering cred [] start

-- A line break and a tab of a broker are escaped, and a long text is cut with its length.
escaped_step : step_text (some (codes "a\n")) (some (codes "b")) ≡ some (codes "a\\x0a; b")
unfolding step_text bounded_text escape_bounded escape_loop next_token escape_token hex_pad
    hex_digit decode_rune gridappsd_go.Escape.is_format
escaped_step = refl

step_text_bounds_example : Printable (codes "a\\x0a; b") × (length (codes "a\\x0a; b") ≤ 1110)
step_text_bounds_example =
    step_text_bounds (some (codes "a\n")) (some (codes "b")) _ (omega arith) (omega arith)
      escaped_step
