-- ===== src/Media/Sdp/Printable.antt =====
-- rssip-media/src/sdp: the descriptions whose printed lines the parser can tell apart.
use rssip.Prelude.{
  ◌^◌, ◌-◌, ◌≤◌, ◌≡◌, ◌≢◌, Bool, true, false, starts_with, Text, codes, [], Option, none, some, All,
}
use rssip.Scanner.Strings.{is_newline, is_whitespace}
use rssip.Media.Sdp.{
  application, NetType, in_net, other_net, IpAddr, ConnectionInformation, Attribute, Origin, ℤ, pos,
  negsuc, RepeatTimes, TimeDescription, MediaDescription, SessionDescription,
}
use rssip.Media.Sdp.Keywords.{is_token}

-- What is documented of `IpAddr`'s `Display` and `FromStr`: a printed address reads back, and is an
-- ASCII text without blanks.
pub record ReadsBack (is_utf8 : Text → Bool) (show_ip : IpAddr → Text)
    (parse_ip : Text → Option IpAddr) : Type 0 where
  pub again : (ip : IpAddr) → parse_ip (show_ip ip) ≡ some ip
  pub no_blank : (ip : IpAddr) → All (λ c. is_whitespace c ≡ false) (show_ip ip)
  pub not_nil : (ip : IpAddr) → show_ip ip ≢ []
  pub utf8 : (ip : IpAddr) → is_utf8 (show_ip ip) ≡ true

-- An `i64` without a sign.
abbrev pub IsUnsigned : ℤ → Type 0
IsUnsigned (pos n) = n ≤ 2 ^ 63 - 1
IsUnsigned (negsuc n) = ⊥

pub record IsRepeat (r : RepeatTimes) : Type 0 where
  pub interval : IsUnsigned r.repeat_interval
  pub duration : IsUnsigned r.active_duration
  pub offsets : All IsUnsigned r.offsets

pub record IsTime (t : TimeDescription) : Type 0 where
  pub start : t.time_active.start_time ≤ 2 ^ 64 - 1
  pub stop : t.time_active.stop_time ≤ 2 ^ 64 - 1
  pub repeats : All IsRepeat t.repeat_times

abbrev pub IfSome {ℓ} : {A : Type ℓ} → (A → Type 0) → Option A → Type 0
IfSome P none = Unit
IfSome P (some a) = P a

module _ (is_utf8 : Text → Bool) where
  -- A text that stays on its line.
  abbrev pub IsLine : Text → Type 0
  IsLine t = All (λ c. is_newline c ≡ false) t × (is_utf8 t ≡ true)

  abbrev pub IsWord : Text → Type 0
  IsWord t = All (λ c. is_whitespace c ≡ false) t × (is_utf8 t ≡ true)

  abbrev pub IsNetType : NetType → Type 0
  IsNetType in_net = is_utf8 (codes "IN") ≡ true
  IsNetType (other_net t) = IsWord t × (t ≢ []) × (starts_with t (codes "IN") ≡ false)

  pub record IsOrigin (o : Origin) : Type 0 where
    pub user : IsWord o.user
    pub session_id : o.session_id ≤ 2 ^ 64 - 1
    pub session_version : o.session_version ≤ 2 ^ 64 - 1
    pub nettype : IsNetType o.nettype

  abbrev pub IsConnection : ConnectionInformation → Type 0
  IsConnection c = IsNetType c.nettype

  pub record IsAttribute (a : Attribute) : Type 0 where
    pub label : All (λ c. is_token c ≡ true) a.name
    pub value : IfSome IsLine a.value

  -- A medium with a format, without a title, bandwidths and a number of ports.
  pub record IsMedia (m : MediaDescription) : Type 0 where
    pub kind : m.media_type ≢ application
    pub port : m.port ≤ 2 ^ 16 - 1
    pub no_ports : m.number_of_ports ≡ none
    pub formats : All (All (λ c. is_token c ≡ true)) m.media_formats
    pub some_format : m.media_formats ≢ []
    pub no_title : m.title ≡ none
    pub connection : IfSome IsConnection m.connection_information
    pub no_bandwidth : m.bandwidth_information ≡ []
    pub attributes : All IsAttribute m.attributes

  pub record IsPrintable (d : SessionDescription) : Type 0 where
    pub ascii : (is_utf8 (codes "IP4") ≡ true) × (is_utf8 (codes "IP6") ≡ true)
    pub origin : IsOrigin d.origin
    pub label : IsLine d.session_name
    pub information : IfSome IsLine d.session_information
    pub uri : IfSome IsLine d.uri
    pub email : IfSome IsLine d.email_address
    pub phone : IfSome IsLine d.phone_number
    pub connection : IfSome IsConnection d.connection_information
    pub no_bandwidth : d.bandwidth_information ≡ []
    pub time : All IsTime d.time
    pub attributes : All IsAttribute d.attributes
    pub media : All IsMedia d.media
