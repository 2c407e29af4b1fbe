-- ===== src/Parser/Uris.antt =====
-- rssip/src/parser.rs: hosts, URIs and name-addrs. `parse_ip` is `str::parse::<IpAddr>`: an address
-- stands as its own text.
use rssip.Prelude.{
  ℕ, ◌+◌, Bool, true, false, not, ◌&&◌, within, ◌==◌, Text, codes, text_eq, map, [], ◌∷◌, ◌++◌,
  Option, none, some, any, length, parse_unsigned, if◌then◌else◌,
}
use rssip.Error.{parse, Result, ok, err, ◌>>=◌}
use rssip.Scanner.{
  Scanner, remaining, peek, take_while, peek_while, scan_while, advance_n, scan_u16,
}
use rssip.Scanner.Strings.{is_space, is_newline, scan_while_as_str, read_behind}
use rssip.Message.Addresses.{
  TransportProtocol, udp, tcp, ws, wss, tls, sctp, Host, host_name, ip_addr, HostPort,
}
use rssip.Message.Method.{from_bytes}
use rssip.Message.Headers.{Scheme, sip, sips, UserInfo, Param, Uri}
use rssip.Parser.Bytes.{
  is_token, is_user, is_pass, is_host, is_param, scanned, ok_or, advance, read_byte,
}
use rssip.Parser.Params.{parse_params, param_ref, parse_uri_headers}

unfoldable pub scheme_of : Text → Option Scheme
scheme_of t =
    if text_eq t (codes "sip")
    then some sip
    else if text_eq t (codes "sips")
    then some sips
    else none

unfoldable pub parse_scheme : Scanner → Result (Scheme × Scanner)
unfolding scheme_of
parse_scheme s = do
  let token = peek_while (λ b. is_token b) s
  scheme ← ok_or (scheme_of token)
  (_, s) ← read_byte b':' (advance_n (length token) s)
  ok (scheme, s)

abbrev pub in_uri : ℕ → Bool
in_uri b = not (is_space b) && not (is_newline b) && not (b == b'>')

unfoldable pub exists_user_part_in_uri : Scanner → Bool
exists_user_part_in_uri s = any (λ b. b == b'@') (take_while in_uri (remaining s))

unfoldable pub parse_user_info : Scanner → Result (Option UserInfo × Scanner)
unfolding exists_user_part_in_uri read_behind
parse_user_info s =
    if exists_user_part_in_uri s
    then (do
      let (user, s) = scan_while (λ b. is_user b) s
      (pass, s) ← read_behind b':' (λ s. ok (scan_while (λ b. is_pass b) s)) s
      (_, s) ← read_byte b'@' s
      ok (some (record { user = user; pass = pass }), s))
    else ok (none, s)

abbrev pub is_valid_port : ℕ → Bool
is_valid_port port = within 0 65535 port

unfoldable pub parse_port : Scanner → Result (Option ℕ × Scanner)
unfolding read_behind
parse_port =
    read_behind b':' λ s. do
      (port, s) ← scanned (scan_u16 s)
      if is_valid_port port then ok (port, s) else err parse

-- `eq_ignore_ascii_case`.
abbrev lower : ℕ → ℕ
lower c = if within 65 90 c then c + 32 else c

abbrev names : Text → Text → Bool
names a b = text_eq (map lower a) (map lower b)

unfoldable pub protocol_from_str : Text → Option TransportProtocol
protocol_from_str t =
    if names t (codes "udp")
    then some udp
    else if names t (codes "tcp")
    then some tcp
    else if names t (codes "ws")
    then some ws
    else if names t (codes "wss")
    then some wss
    else if names t (codes "tls")
    then some tls
    else if names t (codes "sctp")
    then some sctp
    else none

-- `pvalue.map(parse).transpose()`.
abbrev pub transposed {ℓ} : {A : Type ℓ} → (Text → Option A) → Option Text → Result (Option A)
transposed f none = ok none
transposed f (some t) = ok_or (f t) >>= λ a. ok (some a)

abbrev pub mapped {ℓ} : {A : Type ℓ} → (Text → A) → Option Text → Option A
mapped f none = none
mapped f (some t) = some (f t)

-- The rest of `Uri::default()`.
abbrev pub uri_at : Scheme → Option UserInfo → HostPort → Uri
uri_at scheme user host_port = record {
  scheme = scheme;
  user = user;
  host_port = host_port;
  user_param = none;
  method_param = none;
  transport_param = none;
  ttl_param = none;
  lr_param = false;
  maddr_param = none;
  params = [];
  headers = none;
}

module _ (parse_ip : Text → Option Text) where
  -- `Host::from_str`.
  abbrev host_of : Option Text → Text → Host
  host_of none t = host_name t
  host_of (some ip) t = ip_addr ip

  abbrev pub host_from_str : Text → Host
  host_from_str t = host_of (parse_ip t) t

  -- The `match` on the name of a parameter of a URI.
  unfoldable pub set_param : Param → Uri → Result Uri
  unfolding protocol_from_str
  set_param p u =
      if text_eq p.name (codes "user")
      then ok (record u { user_param = p.value })
      else if text_eq p.name (codes "method")
      then ok (record u { method_param = mapped from_bytes p.value })
      else if text_eq p.name (codes "transport")
      then (do t ← transposed protocol_from_str p.value; ok (record u { transport_param = t }))
      else if text_eq p.name (codes "ttl")
      then (do t ← transposed (parse_unsigned 255) p.value; ok (record u { ttl_param = t }))
      else if text_eq p.name (codes "lr")
      then ok (record u { lr_param = true })
      else if text_eq p.name (codes "maddr")
      then ok (record u { maddr_param = mapped host_from_str p.value })
      else ok (record u { params = u.params ++ p ∷ [] })

  module _ (is_utf8 : Text → Bool) where
    -- Behind the opening bracket.
    abbrev pub read_ipv6 : Scanner → Result (Host × Scanner)
    read_ipv6 s = do
      (host, s) ← scanned (scan_while_as_str is_utf8 (λ b. not (b == b']')) s)
      (_, s) ← advance s
      ip ← ok_or (parse_ip host)
      ok (ip_addr ip, s)

    abbrev pub named_host : Text → Scanner → Result (Host × Scanner)
    named_host [] s = err parse
    named_host host s = ok (host_from_str host, s)

    abbrev pub read_host : Option ℕ → Scanner → Result (Host × Scanner)
    read_host none s = let (host, s) = scan_while (λ b. is_host b) s in named_host host s
    read_host (some c) s =
        let (host, s') = scan_while (λ b. is_host b) s in
        if c == b'[' then (advance s >>= λ (_, s). read_ipv6 s) else named_host host s'

    unfoldable pub parse_host_port : Scanner → Result (HostPort × Scanner)
    unfolding parse_port
    parse_host_port s = do
      (host, s) ← read_host (peek s) s
      (port, s) ← parse_port s
      ok (record { host = host; port = port }, s)

    -- A turn of the loop over the parameters.
    unfoldable pub uri_param : Uri → Scanner → Result (Uri × Scanner)
    unfolding set_param param_ref
    uri_param u s = do (p, s) ← param_ref is_utf8 (λ b. is_param b) s; u ← set_param p u; ok (u, s)

    unfoldable pub parse_uri : Bool → Scanner → Result (Uri × Scanner)
    unfolding parse_scheme parse_user_info parse_host_port uri_param parse_params parse_uri_headers
        read_behind
    parse_uri with_params s = do
      (scheme, s) ← parse_scheme s
      (user, s) ← parse_user_info s
      (host_port, s) ← parse_host_port s
      let u = uri_at scheme user host_port
      if not with_params then ok (u, s) else (do
        (u, s) ← parse_params uri_param u s
        (headers, s) ← read_behind b'?' (λ s. parse_uri_headers is_utf8 s) s
        ok (record u { headers = headers }, s))
