-- ===== src/Parser/RoundTrip/Params.antt =====
-- rssip/src/message/uri.rs: the own parameters of a URI are printed as parameters.
use mathlib.Core.List.{append_assoc, append-nil}
use rssip.Prelude.{
  ℕ, ◌≤◌, ◌≡◌, refl, sym, Bool, true, false, Text, codes, List, [], ◌∷◌, ◌++◌, Option, none, some,
  All, every→All, every, decimal, decimal-IsDigits, All-map, is_digit, arith,
}
use rssip.Message.Addresses.{
  TransportProtocol, udp, tcp, ws, wss, tls, sctp, Host, host_name, ip_addr,
}
use rssip.Message.Method.{SipMethod, as_str}
use rssip.Message.Headers.{Param, Uri}
use rssip.Parser.Bytes.{is_host, is_param}
use rssip.Parser.Printing.{show_host, as_lower_case, show_params, optional, flag, behind_equals}
use rssip.Parser.Printable.{Bytes, IfSome, IsHost, IsParam, IsUri, own_params, one_if, flag_param}

pub All-append {ℓ} :
    {A : Type ℓ} (P : A → Type 0) (xs ys : List A) → All P xs → All P ys → All P (xs ++ ys)
All-append P [] ys a b = b
All-append P (x ∷ xs) ys a b = (a.0, All-append P xs ys a.1 b)

pub show_params-append :
    (ps qs : List Param) → show_params (ps ++ qs) ≡ show_params ps ++ show_params qs
unfolding show_params
show_params-append [] qs = refl
show_params-append (p ∷ ps) qs =
    rw (show_params-append ps qs) (
      sym (append_assoc (59 ∷ (p.name ++ behind_equals p.value)) (show_params ps) (show_params qs)))

pub optional-show_params {ℓ} :
    {A : Type ℓ} (label : Text) (show : A → Text) (o : Option A)
    → optional label show o ≡ show_params (one_if label show o)
unfolding show_params
optional-show_params label show none = refl
optional-show_params label show (some a) = simp append-nil

pub flag-show_params : (b : Bool) → flag b ≡ show_params (flag_param b)
unfolding show_params
flag-show_params true = refl
flag-show_params false = refl

one-IsParam {ℓ} :
    {A : Type ℓ} (Fits : A → Type 0) (label : Text) (show : A → Text) (o : Option A)
    → Bytes (λ c. is_param c) label
    → ((a : A) → Fits a → Bytes (λ c. is_param c) (show a))
    → IfSome Fits o
    → All IsParam (one_if label show o)
one-IsParam Fits label show none named shown fits = tt
one-IsParam Fits label show (some a) named shown fits =
    (record { label = named; value = shown a fits }, tt)

param_text : (t : Text) → every (λ c. is_param c) t ≡ true → Bytes (λ c. is_param c) t
param_text t h = every→All (λ c. is_param c) t h

method_text : (m : SipMethod) → Bytes (λ c. is_param c) (as_str m)
unfolding as_str is_param
method_text SipMethod.invite = param_text (codes "INVITE") refl
method_text SipMethod.ack = param_text (codes "ACK") refl
method_text SipMethod.bye = param_text (codes "BYE") refl
method_text SipMethod.cancel = param_text (codes "CANCEL") refl
method_text SipMethod.register = param_text (codes "REGISTER") refl
method_text SipMethod.options = param_text (codes "OPTIONS") refl
method_text SipMethod.info = param_text (codes "INFO") refl
method_text SipMethod.notify = param_text (codes "NOTIFY") refl
method_text SipMethod.subscribe = param_text (codes "SUBSCRIBE") refl
method_text SipMethod.update = param_text (codes "UPDATE") refl
method_text SipMethod.refer = param_text (codes "REFER") refl
method_text SipMethod.prack = param_text (codes "PRACK") refl
method_text SipMethod.message = param_text (codes "MESSAGE") refl
method_text SipMethod.publish = param_text (codes "PUBLISH") refl
method_text SipMethod.unknown = param_text (codes "UNKNOWN-SipMethod") refl

protocol_text : (t : TransportProtocol) → Bytes (λ c. is_param c) (as_lower_case t)
unfolding as_lower_case is_param
protocol_text udp = param_text (codes "udp") refl
protocol_text tcp = param_text (codes "tcp") refl
protocol_text ws = param_text (codes "ws") refl
protocol_text wss = param_text (codes "wss") refl
protocol_text tls = param_text (codes "tls") refl
protocol_text sctp = param_text (codes "sctp") refl

host_param : (c : ℕ) → is_host c ≡ true → is_param c ≡ true
unfolding is_host is_param
host_param c h = ground (arith, h)

digit_param : (c : ℕ) → is_digit c ≡ true → is_param c ≡ true
unfolding is_param
digit_param c h = ground (arith, h)

host_text :
    (parse_ip : Text → Option Text) (h : Host)
    → IsHost parse_ip h
    → Bytes (λ c. is_param c) (show_host h)
unfolding show_host
host_text parse_ip (host_name t) is = All-map t host_param is.0
host_text parse_ip (ip_addr t) is = All-map t host_param is.0

flag_param-IsParam : (b : Bool) → All IsParam (flag_param b)
unfolding is_param
flag_param-IsParam false = tt
flag_param-IsParam true = (record { label = param_text (codes "lr") refl; value = tt }, tt)

any_is : (o : Option TransportProtocol) → IfSome (λ _. Unit) o
any_is none = tt
any_is (some t) = tt

pub own_params-IsParam :
    (parse_ip : Text → Option Text) (u : Uri) → IsUri parse_ip u → All IsParam (own_params u)
unfolding is_param
own_params-IsParam parse_ip u is =
    let join = All-append IsParam in
    join _ _
      (join _ _
        (join _ _
          (join _ _
            (join _ _
              (one-IsParam _ (codes "user") (λ t. t) u.user_param (param_text (codes "user") refl)
                (λ t h. h) is.user_param)
              (one-IsParam _ (codes "method") (λ m. as_str m) u.method_param
                (param_text (codes "method") refl) (λ m h. method_text m) is.method_param))
            (one-IsParam (IsHost parse_ip) (codes "maddr") (λ h. show_host h) u.maddr_param
              (param_text (codes "maddr") refl) (host_text parse_ip) is.maddr_param))
          (one-IsParam (λ _. Unit) (codes "transport") (λ t. as_lower_case t) u.transport_param
            (param_text (codes "transport") refl) (λ t h. protocol_text t)
            (any_is u.transport_param)))
        (one-IsParam (λ n. n ≤ 255) (codes "ttl") (λ n. decimal n) u.ttl_param
          (param_text (codes "ttl") refl)
          (λ n h. All-map (decimal n) digit_param (decimal-IsDigits n)) is.ttl_param))
      (flag_param-IsParam u.lr_param)
