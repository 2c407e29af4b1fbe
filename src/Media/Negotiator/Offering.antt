-- ===== src/Media/Negotiator/Offering.antt =====
-- rssip-media/src/sdp/negotiator.rs: `create_offer`. The two numbers of the origin are those of
-- `rand::random`.
use rssip.Prelude.{
  ℕ, Text, codes, text_eq, List, [], ◌∷◌, ◌++◌, map, Option, none, some, decimal, if◌then◌else◌,
}
use rssip.Media.Error.{err_invalid_nego_state}
use rssip.Media.Codec.{Codec}
use rssip.Media.Sdp.{
  MediaType, SdpTransport, AddrType, ip4, ip6, in_net, IpAddr, v4, v6, Attribute, MediaDescription,
  SessionDescription, Direction, direction_name,
}
use rssip.Media.Sdp.Setters.{change_last}
use rssip.Media.Negotiator.{NegotiatorState, initial, remote_offered, Negotiator}
use rssip.Error.{media_error, Result, ok, err}

pub record SdpMediaStream : Type 0 where
  pub transport : SdpTransport
  pub media_type : MediaType
  pub codecs : List Codec
  pub port : ℕ

-- A direction that is `none` is `Unspecified`.
pub record SdpOfferParams : Type 0 where
  pub origin_ip : IpAddr
  pub direction : Option Direction
  pub media_streams : List SdpMediaStream

abbrev pub empty_params : IpAddr → Option Direction → SdpOfferParams
empty_params origin_ip direction = record {
  origin_ip = origin_ip;
  direction = direction;
  media_streams = [];
}

abbrev pub add_media_stream : SdpMediaStream → SdpOfferParams → SdpOfferParams
add_media_stream s p = record p { media_streams = p.media_streams ++ s ∷ [] }

abbrev pub empty_stream : MediaType → SdpTransport → ℕ → SdpMediaStream
empty_stream media_type transport port = record {
  transport = transport;
  media_type = media_type;
  codecs = [];
  port = port;
}

abbrev pub with_codecs : List Codec → SdpMediaStream → SdpMediaStream
with_codecs codecs s = record s { codecs = codecs }

abbrev attribute : Text → Text → Attribute
attribute name value = record { name = name; value = some value }

abbrev rtpmap : Text → List Attribute
rtpmap value = attribute (codes "rtpmap") value ∷ []

-- The arm of the `match` without a name.
abbrev described : Codec → Text
described c =
    decimal c.payload_type
    ++ (47 ∷ (c.name ++ (47 ∷ (decimal c.clock_rate ++ (47 ∷ (decimal c.channels ++ 47 ∷ []))))))

-- The attributes of one codec.
unfoldable pub codec_attributes : Codec → List Attribute
codec_attributes c =
    if text_eq c.name (codes "PCMU")
    then rtpmap (codes "0 PCMU/8000")
    else if text_eq c.name (codes "PCMA")
    then rtpmap (codes "8 PCMA/8000")
    else if text_eq c.name (codes "GSM")
    then rtpmap (codes "3 GSM/8000")
    else if text_eq c.name (codes "opus")
    then rtpmap (codes "96 opus/48000/2")
    else if text_eq c.name (codes "telephone-event")
    then rtpmap (codes "101 telephone-event/8000")
      ++ attribute (codes "fmtp") (codes "101 0-16") ∷ []
    else rtpmap (described c)

-- The loop over the codecs: what is pushed to the attributes, and to the formats.
unfoldable pub codecs_attributes : List Codec → List Attribute
unfolding codec_attributes
codecs_attributes [] = []
codecs_attributes (c ∷ cs) = codec_attributes c ++ codecs_attributes cs

unfoldable pub codecs_formats : List Codec → List Text
codecs_formats [] = []
codecs_formats (c ∷ cs) = decimal c.payload_type ∷ codecs_formats cs

unfoldable pub stream_media : SdpMediaStream → MediaDescription
unfolding codecs_attributes codecs_formats
stream_media s = record {
  media_type = s.media_type;
  proto = s.transport;
  port = s.port;
  number_of_ports = none;
  media_formats = codecs_formats s.codecs;
  title = none;
  connection_information = none;
  bandwidth_information = [];
  attributes = codecs_attributes s.codecs;
}

-- `Display` of a direction.
abbrev direction_text : Option Direction → Text
direction_text none = codes "Unspecified"
direction_text (some d) = direction_name d

abbrev pub add_attributes : Option Direction → MediaDescription → MediaDescription
add_attributes d m = record m {
  attributes =
      m.attributes
      ++ (attribute (codes "ptime") (codes "20")
          ∷ attribute (codes "maxptime") (codes "150")
          ∷ record { name = direction_text d; value = none }
          ∷ []);
}

-- The media of an offer: only the last one gets the three attributes.
unfoldable pub offered_media : SdpOfferParams → List MediaDescription
unfolding change_last stream_media
offered_media p = change_last (add_attributes p.direction) (map stream_media p.media_streams)

abbrev addr_type : IpAddr → AddrType
addr_type (v4 octets) = ip4
addr_type (v6 octets) = ip6

unfoldable pub offered : SdpOfferParams → ℕ → ℕ → SessionDescription
unfolding offered_media
offered p session_id session_version = record {
  origin = record {
    user = codes "-";
    session_id = session_id;
    session_version = session_version;
    nettype = in_net;
    addrtype = addr_type p.origin_ip;
    unicast_address = p.origin_ip;
  };
  session_name = codes "-";
  session_information = none;
  uri = none;
  email_address = none;
  phone_number = none;
  connection_information = some (record {
    nettype = in_net;
    addrtype = addr_type p.origin_ip;
    conection_address = p.origin_ip;
  });
  bandwidth_information = [];
  attributes = [];
  time = record { time_active = record { start_time = 0; stop_time = 0 }; repeat_times = [] } ∷ [];
  media = offered_media p;
}

abbrev offer_in : NegotiatorState → SessionDescription → Result SessionDescription
offer_in initial offer = ok offer
offer_in remote_offered offer = ok offer
offer_in _ offer = err (media_error err_invalid_nego_state)

unfoldable pub create_offer : Negotiator → SdpOfferParams → ℕ → ℕ → Result SessionDescription
unfolding offered
create_offer n p session_id session_version =
    offer_in n.state (offered p session_id session_version)
