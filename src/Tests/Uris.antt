-- ===== src/Tests/Uris.antt =====
-- Concrete addresses and a status line, printed and parsed.
use rssip.Prelude.{
  All, ◌++◌, false, ◌≡◌, ◌≢◌, refl, Bool, true, Text, codes, [], ◌∷◌, Option, none, some, ℕ, every,
  every→All, All-map, arith, if◌then◌else◌, ◌==◌, not,
}
use rssip.Scanner.Strings.{is_newline}
use rssip.Scanner.Reading.{new-At, Yields}
use rssip.Message.StatusCode.{StatusCode}
use rssip.Parser.StartLines.{StatusLine, parse_status_line, show_status_line}
use rssip.Parser.RoundTrip.StatusLines.{parse_status_line-show_status_line}
use rssip.Error.{ok, panic}
use rssip.Scanner.{new}
use rssip.Scanner.Positions.{new-IsValid}
use rssip.Message.Addresses.{tcp, host_name, ip_addr}
use rssip.Message.Method.{invite}
use rssip.Message.Headers.{Uri, sips, SipUri, named}
use rssip.Parser.Bytes.{is_user, is_pass, is_host, is_param}
use rssip.Parser.Addresses.{sip_uri_from_str, parse_sip_uri}
use rssip.Parser.Ends.{parse_sip_uri-ne-panic}
use rssip.Parser.Printing.{show_sip_uri}
use rssip.Parser.Printable.{IsUri, IsSipUri}
use rssip.Parser.RoundTrip.Addresses.{sip_uri_from_str-show_sip_uri}

-- Of the texts, those that start with a digit are addresses.
abbrev dotted : Text → Option Text
dotted [] = none
dotted (c ∷ t) = if c == 49 then some (c ∷ t) else none

abbrev any_utf8 : Text → Bool
any_utf8 t = true

abbrev alice : Uri
alice = record {
  scheme = sips;
  user = some (record { user = codes "alice"; pass = some (codes "pw") });
  host_port = record { host = host_name (codes "atlanta.com"); port = some 5061 };
  user_param = some (codes "phone");
  method_param = some invite;
  transport_param = some tcp;
  ttl_param = some 15;
  lr_param = true;
  maddr_param = some (ip_addr (codes "192.0.2.1"));
  params = record { name = codes "x"; value = some (codes "y") } ∷ [];
  headers = none;
}

abbrev address : SipUri
address = named (record { display = some (codes "Alice A."); uri = alice })

alice-IsUri : IsUri dotted alice
unfolding is_user is_pass is_host is_param
alice-IsUri = record {
  user = record {
    user = every→All (λ c. is_user c) (codes "alice") refl;
    pass = every→All (λ c. is_pass c) (codes "pw") refl;
  };
  host = (every→All (λ c. is_host c) (codes "atlanta.com") refl, (λ e. cc), refl);
  port = omega arith;
  user_param = every→All (λ c. is_param c) (codes "phone") refl;
  method_param = λ e. cc;
  ttl_param = omega arith;
  maddr_param = (every→All (λ c. is_host c) (codes "192.0.2.1") refl, (λ e. cc), refl);
  params = (
    (
      record {
        label = every→All (λ c. is_param c) (codes "x") refl;
        value = every→All (λ c. is_param c) (codes "y") refl;
      },
      refl,
    ),
    tt,
  );
  no_headers = refl;
}

fails_throughout :
    (p : ℕ → Bool) (t : Text) → every (λ c. not (p c)) t ≡ true → All (λ c. p c ≡ false) t
fails_throughout p t h = All-map t (λ c e. ground arith) (every→All (λ c. not (p c)) t h)

address-IsSipUri : IsSipUri dotted any_utf8 address
address-IsSipUri = ((fails_throughout (λ c. c == 34) (codes "Alice A.") refl, refl), alice-IsUri)

sip_uri_from_str-show_sip_uri_example :
    sip_uri_from_str dotted any_utf8 (show_sip_uri address) ≡ ok address
sip_uri_from_str-show_sip_uri_example =
    sip_uri_from_str-show_sip_uri dotted any_utf8 address address-IsSipUri

parse_sip_uri-ne-panic_example :
    parse_sip_uri dotted any_utf8 true (new (codes "<sip:a@[::1;x")) ≢ panic
parse_sip_uri-ne-panic_example =
    parse_sip_uri-ne-panic dotted any_utf8 true (new (codes "<sip:a@[::1;x")) (new-IsValid _)

abbrev ringing : StatusLine
ringing = record { code = StatusCode.ringing; reason = codes "Still Ringing" }

parse_status_line-show_status_line_example :
    Yields
      (parse_status_line any_utf8 (new (show_status_line ringing ++ codes "Via: x")))
      ringing
      (codes "Via: x")
parse_status_line-show_status_line_example =
    parse_status_line-show_status_line any_utf8 ringing (codes "Via: x")
      (new (show_status_line ringing ++ codes "Via: x")) (new-At _)
      (fails_throughout is_newline (codes "Still Ringing") refl) refl refl refl
