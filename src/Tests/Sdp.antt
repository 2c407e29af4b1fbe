-- ===== src/Tests/Sdp.antt =====
-- A concrete session description, printed and parsed.
use rssip.Prelude.{
  ℕ, zero, suc, ◌==◌, ◌≡◌, ◌≢◌, refl, ap, ◌∙◌, Bool, true, false, Text, codes, [], ◌∷◌, Option,
  none, some, All, every→All, every, All-map, not, arith, if◌then◌else◌,
}
use rssip.Error.{ok, err, panic}
use rssip.Media.Error.{scanner_error}
use rssip.Scanner.{new}
use rssip.Scanner.Positions.{new-IsValid}
use rssip.Scanner.Strings.{is_whitespace, is_newline}
use rssip.Media.Sdp.{
  audio, rtp_avp, ip4, ip6, in_net, IpAddr, v4, v6, pos, MediaDescription, SessionDescription,
}
use rssip.Media.Sdp.Keywords.{is_token}
use rssip.Media.Sdp.Printing.{show_sdp}
use rssip.Media.Sdp.Printable.{ReadsBack, IsPrintable, IsMedia, IsLine}
use rssip.Media.Sdp.Parsing.{sdp_error, parse_bandwidth}
use rssip.Media.Sdp.Parser.{parse}
use rssip.Media.Sdp.Ends.{parse-ne-panic}
use rssip.Media.Sdp.Bandwidth.{parse_bandwidth_fails}
use rssip.Media.Sdp.RoundTrip.Whole.{parse-show_sdp}

abbrev any_utf8 : Text → Bool
any_utf8 t = true

-- Addresses as strokes and dots, behind the digit of their version.
abbrev strokes : ℕ → Text → Text
strokes zero t = 46 ∷ t
strokes (suc n) t = 49 ∷ strokes n t

abbrev octets_text : Text → Text
octets_text [] = []
octets_text (n ∷ octets) = strokes n (octets_text octets)

abbrev one_more : Text → Text
one_more [] = []
one_more (n ∷ octets) = suc n ∷ octets

abbrev octets_of : Text → Text
octets_of [] = []
octets_of (c ∷ t) = let octets = octets_of t in if c == 46 then zero ∷ octets else one_more octets

octets_of-strokes : (n : ℕ) (t : Text) → octets_of (strokes n t) ≡ n ∷ octets_of t
octets_of-strokes zero t = refl
octets_of-strokes (suc n) t = ap one_more (octets_of-strokes n t)

octets_of-octets_text : (octets : Text) → octets_of (octets_text octets) ≡ octets
octets_of-octets_text [] = refl
octets_of-octets_text (n ∷ octets) =
    octets_of-strokes n (octets_text octets)
    ∙ ap (λ (t : Text). n ∷ t) (octets_of-octets_text octets)

abbrev show_strokes : IpAddr → Text
show_strokes (v4 octets) = 52 ∷ octets_text octets
show_strokes (v6 octets) = 54 ∷ octets_text octets

abbrev parse_strokes : Text → Option IpAddr
parse_strokes [] = none
parse_strokes (c ∷ t) = if c == 52 then some (v4 (octets_of t)) else some (v6 (octets_of t))

abbrev Blackless : Text → Type 0
Blackless = All (λ c. is_whitespace c ≡ false)

strokes-no_blank : (n : ℕ) (t : Text) → Blackless t → Blackless (strokes n t)
strokes-no_blank zero t h = (refl, h)
strokes-no_blank (suc n) t h = (refl, strokes-no_blank n t h)

octets-no_blank : (octets : Text) → Blackless (octets_text octets)
octets-no_blank [] = tt
octets-no_blank (n ∷ octets) = strokes-no_blank n (octets_text octets) (octets-no_blank octets)

strokes_again : (ip : IpAddr) → parse_strokes (show_strokes ip) ≡ some ip
strokes_again (v4 octets) = ap (λ t. some (v4 t)) (octets_of-octets_text octets)
strokes_again (v6 octets) = ap (λ t. some (v6 t)) (octets_of-octets_text octets)

strokes_no_blank : (ip : IpAddr) → Blackless (show_strokes ip)
strokes_no_blank (v4 octets) = (refl, octets-no_blank octets)
strokes_no_blank (v6 octets) = (refl, octets-no_blank octets)

strokes_not_nil : (ip : IpAddr) → show_strokes ip ≢ []
strokes_not_nil (v4 octets) e = cc
strokes_not_nil (v6 octets) e = cc

strokes_read_back : ReadsBack any_utf8 show_strokes parse_strokes
strokes_read_back = record {
  again = strokes_again;
  no_blank = strokes_no_blank;
  not_nil = strokes_not_nil;
  utf8 = λ ip. refl;
}

abbrev localhost : IpAddr
localhost = v4 (1 ∷ 0 ∷ 0 ∷ 1 ∷ [])

abbrev call_medium : MediaDescription
call_medium = record {
  media_type = audio;
  proto = rtp_avp;
  port = 49170;
  number_of_ports = none;
  media_formats = codes "0" ∷ codes "8" ∷ [];
  title = none;
  connection_information =
      some (record { nettype = in_net; addrtype = ip6; conection_address = v6 (2 ∷ 1 ∷ []) });
  bandwidth_information = [];
  attributes =
      record { name = codes "rtpmap"; value = some (codes "0 PCMU/8000") }
      ∷ record { name = codes "sendrecv"; value = none }
      ∷ [];
}

abbrev call : SessionDescription
call = record {
  origin = record {
    user = codes "alice";
    session_id = 2890844526;
    session_version = 1;
    nettype = in_net;
    addrtype = ip4;
    unicast_address = localhost;
  };
  session_name = codes "a call";
  session_information = some (codes "of two");
  uri = none;
  email_address = none;
  phone_number = some (codes "+1 617");
  connection_information = none;
  bandwidth_information = [];
  attributes = record { name = codes "recvonly"; value = none } ∷ [];
  time =
      record {
        time_active = record { start_time = 0; stop_time = 5 };
        repeat_times =
            record {
              repeat_interval = pos 7;
              active_duration = pos 1;
              offsets = pos 0 ∷ pos 25 ∷ [];
            }
            ∷ [];
      }
      ∷ [];
  media = call_medium ∷ [];
}

fails_throughout :
    (p : ℕ → Bool) (t : Text) → every (λ c. not (p c)) t ≡ true → All (λ c. p c ≡ false) t
fails_throughout p t h = All-map t (λ c e. ground arith) (every→All (λ c. not (p c)) t h)

abbrev on_line : (t : Text) → every (λ c. not (is_newline c)) t ≡ true → IsLine any_utf8 t
on_line t h = (fails_throughout is_newline t h, refl)

call_medium-IsMedia : IsMedia any_utf8 call_medium
unfolding is_token
call_medium-IsMedia = record {
  kind = λ e. cc;
  port = omega arith;
  no_ports = refl;
  formats = (
    every→All (λ c. is_token c) (codes "0") refl,
    (every→All (λ c. is_token c) (codes "8") refl, tt),
  );
  some_format = λ e. cc;
  no_title = refl;
  connection = refl;
  no_bandwidth = refl;
  attributes = (
    record {
      label = every→All (λ c. is_token c) (codes "rtpmap") refl;
      value = on_line (codes "0 PCMU/8000") refl;
    },
    (record { label = every→All (λ c. is_token c) (codes "sendrecv") refl; value = tt }, tt),
  );
}

call-IsPrintable : IsPrintable any_utf8 call
unfolding is_token
call-IsPrintable = record {
  ascii = (refl, refl);
  origin = record {
    user = (fails_throughout is_whitespace (codes "alice") refl, refl);
    session_id = omega arith;
    session_version = omega arith;
    nettype = refl;
  };
  label = on_line (codes "a call") refl;
  information = on_line (codes "of two") refl;
  uri = tt;
  email = tt;
  phone = on_line (codes "+1 617") refl;
  connection = tt;
  no_bandwidth = refl;
  time = (
    record {
      start = omega arith;
      stop = omega arith;
      repeats = (
        record {
          interval = omega arith;
          duration = omega arith;
          offsets = (omega arith, (omega arith, tt));
        },
        tt,
      );
    },
    tt,
  );
  attributes =
      (record { label = every→All (λ c. is_token c) (codes "recvonly") refl; value = tt }, tt);
  media = (call_medium-IsMedia, tt);
}

parse-show_sdp_example :
    parse any_utf8 parse_strokes localhost (show_sdp show_strokes call) ≡ ok call
parse-show_sdp_example =
    parse-show_sdp any_utf8 show_strokes parse_strokes localhost call strokes_read_back
      call-IsPrintable

parse-ne-panic_example : parse any_utf8 parse_strokes localhost (codes "z=0") ≢ panic
parse-ne-panic_example = parse-ne-panic any_utf8 parse_strokes localhost (codes "z=0")

parse_bandwidth_fails_example :
    parse_bandwidth any_utf8 (new (codes "AS:64")) ≡ err (sdp_error scanner_error)
parse_bandwidth_fails_example =
    parse_bandwidth_fails any_utf8 (new (codes "AS:64")) (new-IsValid (codes "AS:64"))
