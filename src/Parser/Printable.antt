-- ===== src/Parser/Printable.antt =====
-- rssip/src/message/uri.rs: the URIs whose printed parts the parser can tell apart.
use rssip.Prelude.{
  ℕ, ◌≤◌, ◌≡◌, ◌≢◌, Bool, true, false, Text, text_eq, codes, List, [], ◌∷◌, ◌++◌, Option, none,
  some, All, any, decimal, ◌==◌,
}
use rssip.Message.Addresses.{Host, host_name, ip_addr}
use rssip.Message.Method.{unknown, as_str}
use rssip.Message.Headers.{UserInfo, Param, Uri, SipUri, plain, named}
use rssip.Parser.Bytes.{is_user, is_pass, is_host, is_param}
use rssip.Parser.Printing.{as_lower_case, show_host}

abbrev pub Bytes : (ℕ → Bool) → Text → Type 0
Bytes p = All (λ c. p c ≡ true)

abbrev pub IfSome {ℓ} : {A : Type ℓ} → (A → Type 0) → Option A → Type 0
IfSome P none = Unit
IfSome P (some a) = P a

-- The names that `parse_uri` takes out of the parameters.
abbrev pub keywords : List Text
keywords =
    codes "user"
    ∷ codes "method"
    ∷ codes "transport"
    ∷ codes "ttl"
    ∷ codes "lr"
    ∷ codes "maddr"
    ∷ []

pub record IsParam (p : Param) : Type 0 where
  pub label : Bytes (λ c. is_param c) p.name
  pub value : IfSome (Bytes (λ c. is_param c)) p.value

pub record IsUserInfo (u : UserInfo) : Type 0 where
  pub user : Bytes (λ c. is_user c) u.user
  pub pass : IfSome (Bytes (λ c. is_pass c)) u.pass

-- The parameters of a URI in the order in which they are printed.
abbrev pub one_if {ℓ} : {A : Type ℓ} → Text → (A → Text) → Option A → List Param
one_if label show none = []
one_if label show (some a) = record { name = label; value = some (show a) } ∷ []

abbrev pub flag_param : Bool → List Param
flag_param true = record { name = codes "lr"; value = none } ∷ []
flag_param false = []

abbrev pub own_params : Uri → List Param
own_params u =
    one_if (codes "user") (λ t. t) u.user_param
    ++ one_if (codes "method") (λ m. as_str m) u.method_param
    ++ one_if (codes "maddr") (λ h. show_host h) u.maddr_param
    ++ one_if (codes "transport") (λ t. as_lower_case t) u.transport_param
    ++ one_if (codes "ttl") (λ n. decimal n) u.ttl_param
    ++ flag_param u.lr_param

module _ (parse_ip : Text → Option Text) where
  -- A domain name that is no address, or an address without colons that reads as itself.
  abbrev pub IsHost : Host → Type 0
  IsHost (host_name t) = Bytes (λ c. is_host c) t × (t ≢ []) × (parse_ip t ≡ none)
  IsHost (ip_addr t) = Bytes (λ c. is_host c) t × (t ≢ []) × (parse_ip t ≡ some t)

  pub record IsUri (u : Uri) : Type 0 where
    pub user : IfSome IsUserInfo u.user
    pub host : IsHost u.host_port.host
    pub port : IfSome (λ n. n ≤ 65535) u.host_port.port
    pub user_param : IfSome (Bytes (λ c. is_param c)) u.user_param
    pub method_param : IfSome (λ m. m ≢ unknown) u.method_param
    pub ttl_param : IfSome (λ n. n ≤ 255) u.ttl_param
    pub maddr_param : IfSome IsHost u.maddr_param
    pub params : All (λ p. IsParam p × (any (text_eq p.name) keywords ≡ false)) u.params
    pub no_headers : u.headers ≡ none

  -- A display name without quotes, if there is one.
  abbrev pub IsDisplay : (Text → Bool) → Option Text → Type 0
  IsDisplay is_utf8 = IfSome (λ t. All (λ c. (c == 34) ≡ false) t × (is_utf8 t ≡ true))

  abbrev pub IsSipUri : (Text → Bool) → SipUri → Type 0
  IsSipUri is_utf8 (plain u) = IsUri u
  IsSipUri is_utf8 (named n) = IsDisplay is_utf8 n.display × IsUri n.uri
