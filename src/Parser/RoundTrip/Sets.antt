-- ===== src/Parser/RoundTrip/Sets.antt =====
-- rssip/src/parser.rs: the parameters of a URI that is printed set its fields again.
use mathlib.Core.List.{append_assoc, append-nil}
use rssip.Prelude.{
  ℕ, ◌≤◌, ◌≡◌, ◌≢◌, refl, ap, sym, ◌∙◌, Bool, true, false, Text, text_eq, codes, List, [], ◌∷◌,
  ◌++◌, Option, none, some, All, any, decimal, parse_unsigned-decimal, arith,
}
use rssip.Error.{ok, ◌>>=◌, >>=-eq-ok}
use rssip.Message.Addresses.{
  TransportProtocol, udp, tcp, ws, wss, tls, sctp, Host, host_name, ip_addr,
}
use rssip.Message.Method.{SipMethod, unknown, as_str}
use rssip.Message.Method.RoundTrip.{from_bytes-as_str}
use rssip.Message.Headers.{Param, Uri}
use rssip.Parser.Uris.{set_param, uri_at, host_from_str, protocol_from_str}
use rssip.Parser.Printing.{show_host, as_lower_case}
use rssip.Parser.Printable.{
  IfSome, IsHost, IsParam, IsUri, keywords, own_params, one_if, flag_param,
}
use rssip.Parser.RoundTrip.Loops.{set_all}

pub host_again :
    (parse_ip : Text → Option Text) (h : Host)
    → IsHost parse_ip h
    → host_from_str parse_ip (show_host h) ≡ h
unfolding show_host
host_again parse_ip (host_name t) (bytes, ne, none_found) = rw none_found refl
host_again parse_ip (ip_addr t) (bytes, ne, found) = rw found refl

protocol_again : (t : TransportProtocol) → protocol_from_str (as_lower_case t) ≡ some t
unfolding protocol_from_str as_lower_case
protocol_again udp = refl
protocol_again tcp = refl
protocol_again ws = refl
protocol_again wss = refl
protocol_again tls = refl
protocol_again sctp = refl

module _ (parse_ip : Text → Option Text) (is_utf8 : Text → Bool) where
  abbrev Sets : List Param → Uri → Uri → Type 0
  Sets ps u u' = set_all parse_ip is_utf8 ps u ≡ ok u'

  Sets-append : (ps qs : List Param) (u v w : Uri) → Sets ps u v → Sets qs v w → Sets (ps ++ qs) u w
  Sets-append [] qs u v w e f = ap (λ m. m >>= λ u. set_all parse_ip is_utf8 qs u) e ∙ f
  Sets-append (p ∷ ps) qs u v w e f =
      let (u1, e1, more) =
        >>=-eq-ok (set_param parse_ip p u) (λ u. set_all parse_ip is_utf8 ps u) e in
      rw e1 (Sets-append ps qs u1 v w more f)

  user_Sets :
      (o : Option Text) (u : Uri)
      → u.user_param ≡ none
      → Sets (one_if (codes "user") (λ t. t) o) u (record u { user_param = o })
  unfolding set_param
  user_Sets none u e = ap (λ x. ok (record u { user_param = x })) e
  user_Sets (some t) u e = refl

  method_Sets :
      (o : Option SipMethod) (u : Uri)
      → IfSome (λ m. m ≢ unknown) o
      → u.method_param ≡ none
      → Sets (one_if (codes "method") (λ m. as_str m) o) u (record u { method_param = o })
  unfolding set_param
  method_Sets none u known e = ap (λ x. ok (record u { method_param = x })) e
  method_Sets (some m) u known e =
      ap (λ x. ok (record u { method_param = some x })) (from_bytes-as_str m known)

  maddr_Sets :
      (o : Option Host) (u : Uri)
      → IfSome (IsHost parse_ip) o
      → u.maddr_param ≡ none
      → Sets (one_if (codes "maddr") (λ h. show_host h) o) u (record u { maddr_param = o })
  unfolding set_param
  maddr_Sets none u is e = ap (λ x. ok (record u { maddr_param = x })) e
  maddr_Sets (some h) u is e =
      ap (λ x. ok (record u { maddr_param = some x })) (host_again parse_ip h is)

  transport_Sets :
      (o : Option TransportProtocol) (u : Uri)
      → u.transport_param ≡ none
      → Sets
          (one_if (codes "transport") (λ t. as_lower_case t) o)
          u
          (record u { transport_param = o })
  unfolding set_param
  transport_Sets none u e = ap (λ x. ok (record u { transport_param = x })) e
  transport_Sets (some t) u e = rw (protocol_again t) refl

  ttl_Sets :
      (o : Option ℕ) (u : Uri)
      → IfSome (λ n. n ≤ 255) o
      → u.ttl_param ≡ none
      → Sets (one_if (codes "ttl") (λ n. decimal n) o) u (record u { ttl_param = o })
  unfolding set_param
  ttl_Sets none u fits e = ap (λ x. ok (record u { ttl_param = x })) e
  ttl_Sets (some n) u fits e = rw (parse_unsigned-decimal n 255 fits) refl

  lr_Sets :
      (b : Bool) (u : Uri) → u.lr_param ≡ false → Sets (flag_param b) u (record u { lr_param = b })
  unfolding set_param
  lr_Sets false u e = ap (λ x. ok (record u { lr_param = x })) e
  lr_Sets true u e = refl

  others_Sets :
      (ps : List Param) (u : Uri)
      → All (λ p. IsParam p × (any (text_eq p.name) keywords ≡ false)) ps
      → Sets ps u (record u { params = u.params ++ ps })
  unfolding set_param
  others_Sets [] u fits = ap (λ x. ok (record u { params = x })) (sym (append-nil u.params))
  others_Sets (p ∷ ps) u ((is, other), fits) =
      let c1 : text_eq p.name (codes "user") ≡ false = ground (arith, other) in
      let c2 : text_eq p.name (codes "method") ≡ false = ground (arith, other) in
      let c3 : text_eq p.name (codes "transport") ≡ false = ground (arith, other) in
      let c4 : text_eq p.name (codes "ttl") ≡ false = ground (arith, other) in
      let c5 : text_eq p.name (codes "lr") ≡ false = ground (arith, other) in
      let c6 : text_eq p.name (codes "maddr") ≡ false = ground (arith, other) in
      rw (c1, c2, c3, c4, c5, c6)
        (others_Sets ps (record u { params = u.params ++ p ∷ [] }) fits
          ∙ ap (λ x. ok (record u { params = x })) (append_assoc u.params (p ∷ []) ps))

  -- All parameters of a URI, on a URI that has its scheme, user and host only.
  pub uri_Sets :
      (u : Uri)
      → IsUri parse_ip u
      → Sets (own_params u ++ u.params) (uri_at u.scheme u.user u.host_port) u
  uri_Sets u is =
      let u0 = uri_at u.scheme u.user u.host_port in
      let u1 : Uri = record u0 { user_param = u.user_param } in
      let u2 : Uri = record u1 { method_param = u.method_param } in
      let u3 : Uri = record u2 { maddr_param = u.maddr_param } in
      let u4 : Uri = record u3 { transport_param = u.transport_param } in
      let u5 : Uri = record u4 { ttl_param = u.ttl_param } in
      let u6 : Uri = record u5 { lr_param = u.lr_param } in
      let u7 : Uri = record u6 { params = u.params } in
      Sets-append (own_params u) u.params u0 u6 u
        (Sets-append _ _ u0 u5 u6
          (Sets-append _ _ u0 u4 u5
            (Sets-append _ _ u0 u3 u4
              (Sets-append _ _ u0 u2 u3
                (Sets-append _ _ u0 u1 u2 (user_Sets u.user_param u0 refl)
                  (method_Sets u.method_param u1 is.method_param refl))
                (maddr_Sets u.maddr_param u2 is.maddr_param refl))
              (transport_Sets u.transport_param u3 refl))
            (ttl_Sets u.ttl_param u4 is.ttl_param refl))
          (lr_Sets u.lr_param u5 refl))
        (others_Sets u.params u6 is.params
          ∙ ap (λ hs. ok (record u { headers = hs })) (sym is.no_headers))
