-- ===== src/Parser/StartLines.antt =====
-- rssip/src/parser.rs: the request line and the status line, with their `Display` in
-- rssip/src/message/mod.rs.
use rssip.Prelude.{true, Option, ◌++◌, ◌∷◌, [], Text, Bool, codes, is_digit, decimal}
use rssip.Error.{Result, ok, ◌>>=◌}
use rssip.Scanner.{Scanner, scan_while, must_scan_slice}
use rssip.Scanner.Strings.{scan_line}
use rssip.Message.Method.{SipMethod, from_bytes, as_str}
use rssip.Message.StatusCode.{StatusCode, try_from, as_u16}
use rssip.Message.Headers.{Uri}
use rssip.Parser.Bytes.{scanned, ok_or, skip_ws, skip_newline, read_token}
use rssip.Parser.Uris.{parse_uri}
use rssip.Parser.Printing.{show_uri}

pub record StatusLine : Type 0 where
  pub code : StatusCode
  pub reason : Text

pub record RequestLine : Type 0 where
  pub method : SipMethod
  pub uri : Uri

unfoldable pub parse_sip_version : Scanner → Result (Unit {0} × Scanner)
parse_sip_version s = scanned (must_scan_slice (codes "SIP/2.0") s)

unfoldable pub parse_status_code : Scanner → Result (StatusCode × Scanner)
parse_status_code s = do
  let (digits, s) = scan_while (λ c. is_digit c) (skip_ws s)
  code ← ok_or (try_from digits)
  ok (code, skip_ws s)

module _ (is_utf8 : Text → Bool) where
  abbrev pub parse_reason_phrase : Scanner → Result (Text × Scanner)
  parse_reason_phrase s = scanned (scan_line is_utf8 s)

  unfoldable pub parse_status_line : Scanner → Result (StatusLine × Scanner)
  unfolding parse_sip_version parse_status_code
  parse_status_line s = do
    (_, s) ← parse_sip_version s
    (code, s) ← parse_status_code s
    (reason, s) ← parse_reason_phrase s
    ok (record { code = code; reason = reason }, skip_newline s)

unfoldable pub parse_request_line :
    (Text → Option Text) → (Text → Bool) → Scanner → Result (RequestLine × Scanner)
unfolding parse_sip_version
parse_request_line parse_ip is_utf8 s = do
  let (token, s) = read_token s
  (uri, s) ← parse_uri parse_ip is_utf8 true (skip_ws s)
  (_, s) ← parse_sip_version (skip_ws s)
  ok (record { method = from_bytes token; uri = uri }, skip_newline s)

unfoldable pub show_status_line : StatusLine → Text
show_status_line l =
    codes "SIP/2.0 " ++ decimal (as_u16 l.code) ++ 32 ∷ [] ++ l.reason ++ codes "\r\n"

unfoldable pub show_request_line : RequestLine → Text
unfolding show_uri
show_request_line l = as_str l.method ++ 32 ∷ [] ++ show_uri l.uri ++ codes " SIP/2.0\r\n"
