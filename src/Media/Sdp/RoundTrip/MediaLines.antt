-- ===== src/Media/Sdp/RoundTrip/MediaLines.antt =====
-- rssip-media/src/sdp/parser.rs: the line of a medium.
use rssip.Prelude.{
  ℕ, ◌-◌, ◌^◌, ◌≤◌, ◌≡◌, ◌≢◌, refl, Bool, true, not, every→All, Text, codes, List, [], ◌∷◌, ◌++◌,
  none, some, All, decimal,
}
use rssip.Error.{ok}
use rssip.Scanner.{Scanner}
use rssip.Scanner.Prefixes.{Stops}
use rssip.Scanner.Reading.{Yields, At, scan_while-At}
use rssip.Scanner.Strings.{is_space}
use rssip.Media.Sdp.{
  MediaType, audio, video, text, application, message, SdpTransport, udp, rtp_avp, rtp_avpf,
  rtp_savp, rtp_savpf, MediaDescription,
}
use rssip.Media.Sdp.Printing.{media_name, transport_name}
use rssip.Media.Sdp.Keywords.{is_token, media_type_of, transport_of}
use rssip.Media.Sdp.Parsing.{handle_ws, parse_media_description, read_token}
use rssip.Media.Sdp.RoundTrip.Words.{handle_ws-At, spaced_number-At}
use rssip.Media.Sdp.RoundTrip.Fields.{eol}
use rssip.Media.Sdp.RoundTrip.Spaced.{spaced_then, spaced_items-Yields, Closed, Closed-Stops}

-- A medium that has its first line only.
abbrev pub media_head : MediaType → SdpTransport → ℕ → List Text → MediaDescription
media_head kind proto port formats = record {
  media_type = kind;
  proto = proto;
  port = port;
  number_of_ports = none;
  media_formats = formats;
  title = none;
  connection_information = none;
  bandwidth_information = [];
  attributes = [];
}

abbrev IsToken : Text → Type 0
IsToken = All (λ c. is_token c ≡ true)

media_name-IsToken : (k : MediaType) → IsToken (media_name k)
unfolding media_name is_token
media_name-IsToken audio = every→All (λ c. is_token c) (codes "audio") refl
media_name-IsToken video = every→All (λ c. is_token c) (codes "video") refl
media_name-IsToken text = every→All (λ c. is_token c) (codes "text") refl
media_name-IsToken application = every→All (λ c. is_token c) (codes "application") refl
media_name-IsToken message = every→All (λ c. is_token c) (codes "message") refl

media_type_of-media_name : (k : MediaType) → k ≢ application → media_type_of (media_name k) ≡ some k
unfolding media_type_of media_name
media_type_of-media_name audio h = refl
media_type_of-media_name video h = refl
media_type_of-media_name text h = refl
media_type_of-media_name application h = absurd (h refl)
media_type_of-media_name message h = refl

abbrev no_space : ℕ → Bool
no_space b = not (is_space b)

transport_name-word :
    (p : SdpTransport) (after : Text)
    → All (λ c. no_space c ≡ true) (transport_name p) × Stops is_space (transport_name p ++ after)
unfolding transport_name
transport_name-word udp after = (every→All no_space (codes "udp") refl, refl)
transport_name-word rtp_avp after = (every→All no_space (codes "RTP/AVP") refl, refl)
transport_name-word rtp_avpf after = (every→All no_space (codes "RTP/AVPF") refl, refl)
transport_name-word rtp_savp after = (every→All no_space (codes "RTP/SAVP") refl, refl)
transport_name-word rtp_savpf after = (every→All no_space (codes "RTP/SAVPF") refl, refl)

transport_of-transport_name : (p : SdpTransport) → transport_of (transport_name p) ≡ some p
unfolding transport_of transport_name
transport_of-transport_name udp = refl
transport_of-transport_name rtp_avp = refl
transport_of-transport_name rtp_avpf = refl
transport_of-transport_name rtp_savp = refl
transport_of-transport_name rtp_savpf = refl

abbrev same_text : Text → Text
same_text t = t

token-Yields :
    (t after : Text) (s : Scanner)
    → At s (same_text t ++ after)
    → IsToken t
    → Closed after
    → Yields (ok (read_token s)) t after
unfolding is_token
token-Yields t after s h all closed =
    let (s1, e1, h1) =
      scan_while-At (λ b. is_token b) t after s h all
        (Closed-Stops (λ b. is_token b) after refl refl closed) in
    (s1, rw e1 refl, h1)

formats-Stops :
    (formats : List Text) (after : Text)
    → formats ≢ []
    → Stops no_space (spaced_then same_text formats (eol after))
formats-Stops [] after ne = absurd (ne refl)
formats-Stops (f ∷ formats) after ne = refl

pub parse_media_description-Yields :
    (kind : MediaType) (proto : SdpTransport) (port : ℕ) (formats : List Text) (after : Text)
    (s : Scanner)
    → At s (
        media_name kind
        ++ (32
            ∷ (decimal port
                ++ (32 ∷ (transport_name proto ++ spaced_then (λ f. f) formats (eol after))))))
    → kind ≢ application
    → port ≤ 2 ^ 16 - 1
    → formats ≢ []
    → All (All (λ c. is_token c ≡ true)) formats
    → Yields (parse_media_description s) (media_head kind proto port formats) (eol after)
unfolding parse_media_description
parse_media_description-Yields kind proto port formats after s h known fits some_format tokens =
    let tail = spaced_then same_text formats (eol after) in
    let (s1, e1, h1) =
      scan_while-At (λ b. is_token b) (media_name kind) _ s h (media_name-IsToken kind)
        (unfold is_token in refl) in
    let (s2, e2, h2) = spaced_number-At (2 ^ 16 - 1) port _ s1 h1 refl fits in
    let (no_spaces, first) = transport_name-word proto tail in
    let (s3, e3, h3) =
      scan_while-At no_space (transport_name proto) tail (handle_ws s2)
        (handle_ws-At (transport_name proto ++ tail) s2 h2 first) no_spaces
        (formats-Stops formats after some_format) in
    let (s4, e4, h4) =
      spaced_items-Yields same_text IsToken (λ s. ok (read_token s)) token-Yields formats after s3
        h3 tokens in
    (
      s4,
      rw (e1, media_type_of-media_name kind known, e2, e3, transport_of-transport_name proto, e4)
          refl,
      h4,
    )
