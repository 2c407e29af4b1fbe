-- ===== src/Parser/RoundTrip/Whole.antt =====
-- rssip/src/message/uri.rs: a URI and a name-addr that are printed read back, `FromStr` after `Display`.
use mathlib.Core.List.{append_assoc}
use rssip.Prelude.{
  ℕ, ◌≡◌, refl, ap, sym, ◌∙◌, Bool, true, ◌==◌, Text, codes, List, [], ◌∷◌, ◌++◌, Option, none,
  some, All, All-map, decimal, decimal-IsDigits, is_digit, arith,
}
use rssip.Error.{ok}
use rssip.Scanner.{Scanner}
use rssip.Scanner.Reading.{At, Yields, scan_if-Stops}
use rssip.Scanner.Strings.{read_behind}
use rssip.Message.Headers.{Param, Uri}
use rssip.Parser.Bytes.{is_host, is_param}
use rssip.Parser.Uris.{in_uri, uri_at, parse_uri}
use rssip.Parser.Printing.{
  scheme_name, show_user, show_host, shown_port, show_host_port, show_params, behind_equals,
  behind_mark, optional, flag, as_lower_case, show_uri,
}
use rssip.Message.Method.{as_str}
use rssip.Parser.Printable.{Bytes, IfSome, IsParam, IsUri, own_params}
use rssip.Parser.RoundTrip.Loops.{Tail, Tail-Stops, show_params-Next, parse_params-Yields}
use rssip.Parser.RoundTrip.Sets.{uri_Sets}
use rssip.Parser.RoundTrip.Params.{
  All-append, show_params-append, optional-show_params, flag-show_params, own_params-IsParam,
}
use rssip.Parser.RoundTrip.Hosts.{
  is_plain, parse_scheme-Yields, parse_user_info-Yields, parse_host_port-Yields, host-Bytes,
}

host_plain : (c : ℕ) → is_host c ≡ true → is_plain c ≡ true
unfolding is_host
host_plain c h = ground (arith, h)

param_plain : (c : ℕ) → is_param c ≡ true → is_plain c ≡ true
unfolding is_param
param_plain c h = ground (arith, h)

digit_plain : (c : ℕ) → is_digit c ≡ true → is_plain c ≡ true
digit_plain c h = ground (arith, h)

port_plain : (o : Option ℕ) → Bytes is_plain (shown_port o)
port_plain none = tt
port_plain (some n) = (refl, All-map (decimal n) digit_plain (decimal-IsDigits n))

value_plain :
    (o : Option Text) → IfSome (Bytes (λ c. is_param c)) o → Bytes is_plain (behind_equals o)
value_plain none fits = tt
value_plain (some t) fits = (refl, All-map t param_plain fits)

params_plain : (ps : List Param) → All IsParam ps → Bytes is_plain (show_params ps)
unfolding show_params
params_plain [] fits = tt
params_plain (p ∷ ps) (is, fits) = (
  refl,
  All-append _ (p.name ++ behind_equals p.value) (show_params ps)
      (All-append _ p.name (behind_equals p.value) (All-map p.name param_plain is.label)
        (value_plain p.value is.value))
      (params_plain ps fits),
)

-- The fields of the parameters, and the other parameters.
abbrev pub all_params : Uri → List Param
all_params u = own_params u ++ u.params

own_params-printed :
    (u : Uri)
    → optional (codes "user") (λ t. t) u.user_param
        ++ optional (codes "method") (λ m. as_str m) u.method_param
        ++ optional (codes "maddr") (λ h. show_host h) u.maddr_param
        ++ optional (codes "transport") (λ t. as_lower_case t) u.transport_param
        ++ optional (codes "ttl") (λ n. decimal n) u.ttl_param
        ++ flag u.lr_param
      ≡ show_params (own_params u)
own_params-printed u = simp (optional-show_params, flag-show_params, show_params-append)

uri_body :
    (scheme user host port a b c d e f ps hs after : Text)
    → hs ≡ []
    → scheme ++ 58 ∷ [] ++ user ++ (host ++ port) ++ a ++ b ++ c ++ d ++ e ++ f ++ ps ++ hs ++ after
      ≡ scheme ++ (58 ∷ (user ++ ((host ++ (port ++ (a ++ b ++ c ++ d ++ e ++ f ++ ps))) ++ after)))
uri_body scheme user host port a b c d e f ps hs after none_shown = simp (append_assoc, none_shown)

pub show_uri_lem :
    (u : Uri) (after : Text)
    → u.headers ≡ none
    → show_uri u ++ after
      ≡ scheme_name u.scheme
        ++ (58
            ∷ (show_user u.user
                ++ ((show_host u.host_port.host
                      ++ (shown_port u.host_port.port ++ show_params (all_params u)))
                    ++ after)))
unfolding show_uri show_host_port
show_uri_lem u after e =
    let hp = u.host_port in
    let own = ap (λ (t : Text). t ++ show_params u.params) (own_params-printed u) in
    uri_body (scheme_name u.scheme) (show_user u.user) (show_host hp.host) (shown_port hp.port)
      (optional (codes "user") (λ t. t) u.user_param)
      (optional (codes "method") (λ m. as_str m) u.method_param)
      (optional (codes "maddr") (λ h. show_host h) u.maddr_param)
      (optional (codes "transport") (λ t. as_lower_case t) u.transport_param)
      (optional (codes "ttl") (λ n. decimal n) u.ttl_param) (flag u.lr_param) (show_params u.params)
      (behind_mark u.headers) after (ap behind_mark e)
    ∙ ap
        (λ (t : Text).
          scheme_name u.scheme
          ++ (58
              ∷ (show_user u.user ++ ((show_host hp.host ++ (shown_port hp.port ++ t)) ++ after))))
        (own ∙ sym (show_params-append (own_params u) u.params))

module _ (parse_ip : Text → Option Text) (is_utf8 : Text → Bool) where
  pub parse_uri-Yields :
      (u : Uri) (after : Text) (s : Scanner)
      → At s (show_uri u ++ after)
      → IsUri parse_ip u
      → Tail after
      → Yields (parse_uri parse_ip is_utf8 true s) u after
  unfolding parse_uri read_behind
  parse_uri-Yields u after s h is tail =
      let hp = u.host_port in
      let shown = show_params (all_params u) in
      let xs = show_host hp.host ++ (shown_port hp.port ++ shown) in
      let fits =
        All-append IsParam (own_params u) u.params (own_params-IsParam parse_ip u is)
          (All-map u.params (λ p f. f.0) is.params) in
      let plain =
        All-append _ (show_host hp.host) (shown_port hp.port ++ shown)
          (All-map (show_host hp.host) host_plain (host-Bytes parse_ip is_utf8 hp.host is.host))
          (All-append _ (shown_port hp.port) shown (port_plain hp.port)
            (params_plain (all_params u) fits)) in
      let (s1, e1, h1) =
        parse_scheme-Yields u.scheme (show_user u.user ++ (xs ++ after)) s
          (h.0, h.1 ∙ show_uri_lem u after is.no_headers) in
      let (s2, e2, h2) =
        parse_user_info-Yields u.user xs after s1 h1 is.user plain
          (Tail-Stops in_uri after refl refl tail) in
      let (s3, e3, h3) =
        parse_host_port-Yields parse_ip is_utf8 hp (shown ++ after) s2
          (h2.0, h2.1 ∙ simp append_assoc) is.host is.port
          (show_params-Next (all_params u) after tail) in
      let (s4, e4, h4) =
        parse_params-Yields parse_ip is_utf8 (all_params u) (uri_at u.scheme u.user hp) u after s3
          h3 tail fits (uri_Sets parse_ip is_utf8 u is) in
      let no_mark =
        scan_if-Stops (λ b. b == b'?') after s4 h4 (Tail-Stops _ after refl refl tail) in
      (
        s4,
        rw (e1, e2, e3, e4)
            (rw no_mark (ap (λ hs. ok (record u { headers = hs }, s4)) (sym is.no_headers))),
        h4,
      )
