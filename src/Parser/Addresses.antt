-- ===== src/Parser/Addresses.antt =====
-- rssip/src/parser.rs: name-addrs and the choice between them and URIs, and `FromStr` of
-- rssip/src/message/uri.rs.
use rssip.Prelude.{ℕ, Bool, true, false, not, ◌||◌, ◌==◌, Text, Option, none, some, if◌then◌else◌}
use rssip.Error.{parse, Result, ok, err, ◌>>=◌}
use rssip.Scanner.{new, Scanner, peek, peek_while, scan_while}
use rssip.Message.Headers.{Scheme, Uri, NameAddr, SipUri, plain, named}
use rssip.Parser.Bytes.{skip_ws, advance, read_byte, read_token}
use rssip.Parser.Uris.{scheme_of, parse_uri}

module _ (parse_ip : Text → Option Text) (is_utf8 : Text → Bool) where
  -- The display name, by the byte that comes next.
  abbrev pub display_at : Option ℕ → Scanner → Result (Option Text × Scanner)
  display_at none s = let (label, s) = read_token s in ok (some label, skip_ws s)
  display_at (some c) s =
      if c == 34
      then (do
        (_, s) ← advance s
        let (label, s) = scan_while (λ b. not (b == 34)) s
        (_, s) ← advance s
        if is_utf8 label then ok (some label, s) else err parse)
      else if c == b'<'
      then ok (none, s)
      else (let (label, s) = read_token s in ok (some label, skip_ws s))

  unfoldable pub parse_display_name : Scanner → Result (Option Text × Scanner)
  parse_display_name s = display_at (peek s) s

  unfoldable pub parse_name_addr : Scanner → Result (NameAddr × Scanner)
  unfolding parse_display_name parse_uri
  parse_name_addr s = do
    (display, s) ← parse_display_name (skip_ws s)
    (_, s) ← read_byte b'<' (skip_ws s)
    (uri, s) ← parse_uri parse_ip is_utf8 true s
    (_, s) ← read_byte b'>' s
    ok (record { display = display; uri = uri }, s)

  abbrev pub opens_name_addr : Option ℕ → Bool
  opens_name_addr none = false
  opens_name_addr (some c) = (c == 34) || (c == b'<')

  abbrev pub before_colon : ℕ → Bool
  before_colon b = not ((b == b':') || (b == 13) || (b == 10) || (b == b'<'))

  abbrev is_scheme : Option Scheme → Bool
  is_scheme none = false
  is_scheme (some scheme) = true

  unfoldable pub parse_sip_uri : Bool → Scanner → Result (SipUri × Scanner)
  unfolding parse_name_addr scheme_of
  parse_sip_uri with_params s =
      let s = skip_ws s in
      let name_addr = parse_name_addr s >>= (λ (n, s). ok (named n, s)) in
      let uri = parse_uri parse_ip is_utf8 with_params s >>= (λ (u, s). ok (plain u, s)) in
      if opens_name_addr (peek s)
      then name_addr
      else if is_scheme (scheme_of (peek_while before_colon s))
      then uri
      else name_addr

  -- `FromStr` of the three types.
  unfoldable pub uri_from_str : Text → Result Uri
  unfolding parse_uri
  uri_from_str t = do (u, s) ← parse_uri parse_ip is_utf8 true (new t); ok u

  unfoldable pub name_addr_from_str : Text → Result NameAddr
  unfolding parse_name_addr
  name_addr_from_str t = do (n, s) ← parse_name_addr (new t); ok n

  unfoldable pub sip_uri_from_str : Text → Result SipUri
  unfolding parse_sip_uri
  sip_uri_from_str t = do (a, s) ← parse_sip_uri true (new t); ok a
