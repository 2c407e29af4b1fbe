-- ===== src/Parser/Printing.antt =====
-- rssip/src/message/uri.rs and params/mod.rs: `Display` of parameters, hosts, URIs and name-addrs.
use rssip.Prelude.{
  ℕ, Bool, true, false, Text, codes, List, [], ◌∷◌, ◌++◌, Option, none, some, decimal,
}
use rssip.Message.Addresses.{
  TransportProtocol, udp, tcp, ws, wss, tls, sctp, Host, host_name, ip_addr, HostPort,
}
use rssip.Message.Method.{as_str}
use rssip.Message.Headers.{Scheme, sip, sips, UserInfo, Param, Uri, NameAddr, SipUri, plain, named}

unfoldable pub scheme_name : Scheme → Text
scheme_name sip = codes "sip"
scheme_name sips = codes "sips"

unfoldable pub as_lower_case : TransportProtocol → Text
as_lower_case udp = codes "udp"
as_lower_case tcp = codes "tcp"
as_lower_case ws = codes "ws"
as_lower_case wss = codes "wss"
as_lower_case tls = codes "tls"
as_lower_case sctp = codes "sctp"

unfoldable pub show_host : Host → Text
show_host (host_name t) = t
show_host (ip_addr ip) = ip

abbrev pub behind_colon : Option Text → Text
behind_colon none = []
behind_colon (some t) = 58 ∷ t

abbrev pub shown_port : Option ℕ → Text
shown_port none = []
shown_port (some n) = 58 ∷ decimal n

unfoldable pub show_host_port : HostPort → Text
unfolding show_host
show_host_port h = show_host h.host ++ shown_port h.port

unfoldable pub show_user : Option UserInfo → Text
show_user none = []
show_user (some u) = u.user ++ behind_colon u.pass ++ 64 ∷ []

abbrev pub behind_equals : Option Text → Text
behind_equals none = []
behind_equals (some t) = 61 ∷ t

unfoldable pub show_params : List Param → Text
show_params [] = []
show_params (p ∷ ps) = 59 ∷ (p.name ++ behind_equals p.value) ++ show_params ps

abbrev pub text_or_empty : Option Text → Text
text_or_empty none = []
text_or_empty (some t) = t

-- `format_with` and its separator.
unfoldable pub show_uri_headers : List Param → Text
show_uri_headers [] = []
show_uri_headers (p ∷ []) = p.name ++ 61 ∷ text_or_empty p.value
show_uri_headers (p ∷ q ∷ ps) =
    p.name ++ 61 ∷ text_or_empty p.value ++ 38 ∷ show_uri_headers (q ∷ ps)

abbrev pub behind_mark : Option (List Param) → Text
behind_mark none = []
behind_mark (some hs) = 63 ∷ show_uri_headers hs

-- A parameter of its own field, if it is there.
abbrev pub optional {ℓ} : {A : Type ℓ} → Text → (A → Text) → Option A → Text
optional label show none = []
optional label show (some a) = 59 ∷ label ++ 61 ∷ show a

abbrev pub flag : Bool → Text
flag true = codes ";lr"
flag false = []

abbrev itself : Text → Text
itself t = t

unfoldable pub show_uri : Uri → Text
unfolding scheme_name show_user show_host_port as_lower_case show_params show_uri_headers
show_uri u =
    scheme_name u.scheme
    ++ 58 ∷ []
    ++ show_user u.user
    ++ show_host_port u.host_port
    ++ optional (codes "user") itself u.user_param
    ++ optional (codes "method") (λ m. as_str m) u.method_param
    ++ optional (codes "maddr") (λ h. show_host h) u.maddr_param
    ++ optional (codes "transport") (λ t. as_lower_case t) u.transport_param
    ++ optional (codes "ttl") (λ n. decimal n) u.ttl_param
    ++ flag u.lr_param
    ++ show_params u.params
    ++ behind_mark u.headers

abbrev pub quoted : Option Text → Text
quoted none = []
quoted (some t) = 34 ∷ t ++ 34 ∷ 32 ∷ []

unfoldable pub show_name_addr : NameAddr → Text
unfolding show_uri
show_name_addr n = quoted n.display ++ 60 ∷ show_uri n.uri ++ 62 ∷ []

unfoldable pub show_sip_uri : SipUri → Text
unfolding show_uri show_name_addr
show_sip_uri (plain u) = show_uri u
show_sip_uri (named n) = show_name_addr n
