-- ===== src/Parser/Ends.antt =====
-- rssip/src/parser.rs: the parsers of URIs and name-addrs end, without a panic.
use mathlib.Core.Path.{subst}
use rssip.Prelude.{
  ℕ, ◌-◌, ◌^◌, ◌≢◌, Bool, true, not, ◌==◌, Text, text_eq, codes, [], ◌∷◌, Option, none, some,
  length, parse_unsigned, arith,
}
use rssip.Error.{parse, Result, ok, panic, ◌>>=◌, Ensures, Ensures-bind}
use rssip.Scanner.{Scanner, peek, scan_while, peek_while}
use rssip.Scanner.Consumed.{rest}
use rssip.Scanner.Positions.{IsValid}
use rssip.Scanner.Forward.{Forward, chain, between, read_behind-Forward}
use rssip.Scanner.Within.{
  Within, Leaves, scan_while-Within, advance_n-Within, scan_number-Leaves, scan_while_as_str-Leaves,
}
use rssip.Message.Headers.{Param, Uri, plain, named}
use rssip.Parser.Bytes.{is_token, is_user, is_pass, is_host, is_param, ok_or, skip_ws}
use rssip.Parser.Params.{parse_uri_headers}
use rssip.Parser.Progress.{
  ok_or-Ensures, if-Ensures, skip_ws-Within, byte-Forward, advance-Forward, param_ref-Forward,
  parse_params-Forward, parse_uri_headers-Forward,
}
use rssip.Parser.Uris.{
  parse_scheme, scheme_of, parse_user_info, exists_user_part_in_uri, parse_port, is_valid_port,
  set_param, transposed, protocol_from_str, read_ipv6, named_host, read_host, parse_host_port,
  uri_param, parse_uri,
}
use rssip.Parser.Addresses.{
  display_at, parse_display_name, parse_name_addr, parse_sip_uri, opens_name_addr,
}

parse_scheme-Forward : Forward parse_scheme
unfolding parse_scheme
parse_scheme-Forward n s w =
    let token = peek_while (λ b. is_token b) s in
    between n (ok_or (scheme_of token)) _ (ok_or-Ensures (scheme_of token)) λ scheme.
      chain n _ _ (byte-Forward b':' n _ (advance_n-Within (length token) n s w)) (λ r w. w)

parse_user_info-Forward : Forward parse_user_info
unfolding parse_user_info
parse_user_info-Forward n s w =
    if-Ensures _ (exists_user_part_in_uri s) _ _
      (chain n _ _
        (read_behind-Forward b':' (λ s. ok (scan_while (λ b. is_pass b) s))
          (scan_while-Within (λ b. is_pass b)) n _ (scan_while-Within (λ b. is_user b) n s w))
        λ (pass, s) w. chain n _ _ (byte-Forward b'@' n s w) (λ r w. w))
      w

parse_port-Forward : Forward parse_port
unfolding parse_port
parse_port-Forward = read_behind-Forward b':' _ λ n s w.
    chain n _ _ (scan_number-Leaves parse (2 ^ 16 - 1) n s w)
      λ (port, s) w. if-Ensures _ (is_valid_port port) _ _ w tt

abbrev Calm {ℓ} : {A : Type ℓ} → A → Type 0
Calm _ = Unit

transposed-Ensures {ℓ κ} :
    {A : Type ℓ} {B : Type κ} (f : Text → Option A) (value : Option Text)
    (later : Option A → Result B)
    → ((a : Option A) → Ensures Calm (later a))
    → Ensures Calm (transposed f value >>= later)
transposed-Ensures f none later h = h none
transposed-Ensures f (some t) later h =
    Ensures-bind Calm Calm (ok_or (f t) >>= λ a. ok (some a)) later
      (Ensures-bind Calm Calm (ok_or (f t)) _ (ok_or-Ensures (f t)) (λ a _. tt)) (λ a _. h a)

module _ (parse_ip : Text → Option Text) where
  set_param-Ensures : (p : Param) (u : Uri) → Ensures (λ _. Unit) (set_param parse_ip p u)
  unfolding set_param
  set_param-Ensures p u = if-Ensures Calm (text_eq p.name (codes "user")) _ _ tt (
      if-Ensures Calm (text_eq p.name (codes "method")) _ _ tt (
        if-Ensures Calm (text_eq p.name (codes "transport")) _ _
          (transposed-Ensures protocol_from_str p.value _ (λ a. tt))
          (if-Ensures Calm (text_eq p.name (codes "ttl")) _ _
            (transposed-Ensures (parse_unsigned 255) p.value _ (λ a. tt))
            (if-Ensures Calm (text_eq p.name (codes "lr")) _ _ tt
              (if-Ensures Calm (text_eq p.name (codes "maddr")) _ _ tt tt)))))

  module _ (is_utf8 : Text → Bool) where
    read_ipv6-Forward : Forward (read_ipv6 parse_ip is_utf8)
    read_ipv6-Forward n s w =
        chain n _ _ (scan_while_as_str-Leaves is_utf8 parse (λ b. not (b == b']')) n s w)
          λ (host, s) w. chain n _ _ (advance-Forward n s w) λ (_, s) w.
            between n (ok_or (parse_ip host)) _ (ok_or-Ensures (parse_ip host)) (λ ip. w)

    named_host-Forward : (host : Text) → Forward (named_host parse_ip is_utf8 host)
    named_host-Forward [] n s w = tt
    named_host-Forward (c ∷ host) n s w = w

    read_host-Forward : (next : Option ℕ) → Forward (read_host parse_ip is_utf8 next)
    read_host-Forward none n s w =
        named_host-Forward _ n _ (scan_while-Within (λ b. is_host b) n s w)
    read_host-Forward (some c) n s w =
        if-Ensures _ (c == b'[') _ _
          (chain n _ _ (advance-Forward n s w) λ (_, s) w. read_ipv6-Forward n s w)
          (named_host-Forward _ n _ (scan_while-Within (λ b. is_host b) n s w))

    parse_host_port-Forward : Forward (parse_host_port parse_ip is_utf8)
    unfolding parse_host_port
    parse_host_port-Forward n s w =
        chain n _ _ (read_host-Forward (peek s) n s w)
          λ (host, s) w. chain n _ _ (parse_port-Forward n s w) (λ r w. w)

    uri_param-Forward : (u : Uri) → Forward (uri_param parse_ip is_utf8 u)
    unfolding uri_param
    uri_param-Forward u n s w =
        chain n _ _ (param_ref-Forward is_utf8 (λ b. is_param b) n s w)
          λ (p, s) w. between n (set_param parse_ip p u) _ (set_param-Ensures p u) (λ u. w)

    pub parse_uri-Forward : (with_params : Bool) → Forward (parse_uri parse_ip is_utf8 with_params)
    unfolding parse_uri
    parse_uri-Forward with_params n s w = chain n _ _ (parse_scheme-Forward n s w) λ (scheme, s) w.
        chain n _ _ (parse_user_info-Forward n s w) λ (user, s) w.
          chain n _ _ (parse_host_port-Forward n s w) λ (host_port, s) w.
            if-Ensures _ (not with_params) _ _ w (
              chain n _ _
                (parse_params-Forward (uri_param parse_ip is_utf8) _ uri_param-Forward n s w)
                λ (u, s) w.
                  chain n _ _
                    (read_behind-Forward b'?' (λ s. parse_uri_headers is_utf8 s)
                      (parse_uri_headers-Forward is_utf8) n s w)
                    (λ r w. w))

    display_at-Forward : (next : Option ℕ) → Forward (display_at parse_ip is_utf8 next)
    display_at-Forward none n s w = skip_ws-Within n _ (scan_while-Within (λ b. is_token b) n s w)
    display_at-Forward (some c) n s w =
        if-Ensures _ (c == 34) _ _
          (chain n _ _ (advance-Forward n s w) λ (_, s) w.
            chain n _ _ (advance-Forward n _ (scan_while-Within (λ b. not (b == 34)) n s w))
              λ (_, s) w. if-Ensures _ (is_utf8 _) _ _ w tt)
          (if-Ensures _ (c == b'<') _ _ w
            (skip_ws-Within n _ (scan_while-Within (λ b. is_token b) n s w)))

    parse_name_addr-Forward : Forward (parse_name_addr parse_ip is_utf8)
    unfolding parse_name_addr parse_display_name
    parse_name_addr-Forward n s w =
        let w = skip_ws-Within n s w in
        chain n _ _ (display_at-Forward (peek (skip_ws s)) n (skip_ws s) w) λ (display, s) w.
          chain n _ _ (byte-Forward b'<' n _ (skip_ws-Within n s w)) λ (_, s) w.
            chain n _ _ (parse_uri-Forward true n s w)
              λ (uri, s) w. chain n _ _ (byte-Forward b'>' n s w) (λ r w. w)

    pub parse_sip_uri-Forward :
        (with_params : Bool) → Forward (parse_sip_uri parse_ip is_utf8 with_params)
    unfolding parse_sip_uri
    parse_sip_uri-Forward with_params n s w =
        let v = skip_ws-Within n s w in
        let name_addr =
          chain n _ (λ (a, s). ok (named a, s)) (parse_name_addr-Forward n (skip_ws s) v)
            (λ r w. w) in
        let uri =
          chain n _ (λ (u, s). ok (plain u, s)) (parse_uri-Forward with_params n (skip_ws s) v)
            (λ r w. w) in
        if-Ensures (λ (a, s). Within n s) (opens_name_addr parse_ip is_utf8 (peek (skip_ws s))) _ _
          name_addr (if-Ensures (λ (a, s). Within n s) _ _ _ uri name_addr)

-- From every valid scanner `parse_sip_uri` ends, with an address or an error: neither the loop over
-- the parameters nor that over the headers of the URI runs on, and nothing in it panics.
pub parse_sip_uri-ne-panic :
    (parse_ip : Text → Option Text) (is_utf8 : Text → Bool) (with_params : Bool) (s : Scanner)
    → IsValid s
    → parse_sip_uri parse_ip is_utf8 with_params s ≢ panic
parse_sip_uri-ne-panic parse_ip is_utf8 with_params s v e =
    subst (Leaves (length (rest s))) e
      (parse_sip_uri-Forward parse_ip is_utf8 with_params (length (rest s)) s (v, omega arith))
