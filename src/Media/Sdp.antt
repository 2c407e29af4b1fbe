-- ===== src/Media/Sdp.antt =====
-- rssip-media/src/sdp/mod.rs: session descriptions, their lines and the directions of media.
pub mod Setters
pub mod Printing
pub mod Keywords
pub mod Parsing
pub mod Parser
pub mod Progress
pub mod Ends
pub mod Bandwidth
pub mod Printable
pub mod RoundTrip
use rssip.Prelude.{ℕ, Bool, ◌==◌, Text, codes, text_eq, List, Option, none, some, if◌then◌else◌}

pub data MediaType : Type 0 where
  audio video text application message : MediaType

pub data SdpTransport : Type 0 where
  udp rtp_avp rtp_avpf rtp_savp rtp_savpf : SdpTransport

abbrev media_rank : MediaType → ℕ
media_rank audio = 0
media_rank video = 1
media_rank text = 2
media_rank application = 3
media_rank message = 4

abbrev transport_rank : SdpTransport → ℕ
transport_rank udp = 0
transport_rank rtp_avp = 1
transport_rank rtp_avpf = 2
transport_rank rtp_savp = 3
transport_rank rtp_savpf = 4

-- `derive(PartialEq)` of the two enums.
abbrev pub same_type : MediaType → MediaType → Bool
same_type a b = media_rank a == media_rank b

abbrev pub same_proto : SdpTransport → SdpTransport → Bool
same_proto a b = transport_rank a == transport_rank b

pub data AddrType : Type 0 where
  ip4 ip6 : AddrType

pub data NetType : Type 0 where
  in_net : NetType
  other_net : Text → NetType

-- `std::net::IpAddr`, by its octets.
pub data IpAddr : Type 0 where
  v4 v6 : Text → IpAddr

pub record ConnectionInformation : Type 0 where
  pub nettype : NetType
  pub addrtype : AddrType
  pub conection_address : IpAddr

pub data Bwtype : Type 0 where
  bw_ct bw_as bw_rr bw_rs bw_tias : Bwtype
  bw_other : Text → Bwtype

pub record BandwidthInformation : Type 0 where
  pub bwtype : Bwtype
  pub bandwidth : ℕ

pub record Attribute : Type 0 where
  pub name : Text
  pub value : Option Text

pub record Origin : Type 0 where
  pub user : Text
  pub session_id : ℕ
  pub session_version : ℕ
  pub nettype : NetType
  pub addrtype : AddrType
  pub unicast_address : IpAddr

pub record TimeActive : Type 0 where
  pub start_time : ℕ
  pub stop_time : ℕ

-- An `i64`: `negsuc n` is -(n + 1).
pub data ℤ : Type 0 where
  pos negsuc : ℕ → ℤ

pub record RepeatTimes : Type 0 where
  pub repeat_interval : ℤ
  pub active_duration : ℤ
  pub offsets : List ℤ

pub record TimeDescription : Type 0 where
  pub time_active : TimeActive
  pub repeat_times : List RepeatTimes

pub record MediaDescription : Type 0 where
  pub media_type : MediaType
  pub proto : SdpTransport
  pub port : ℕ
  pub number_of_ports : Option ℕ
  pub media_formats : List Text
  pub title : Option Text
  pub connection_information : Option ConnectionInformation
  pub bandwidth_information : List BandwidthInformation
  pub attributes : List Attribute

pub record SessionDescription : Type 0 where
  pub origin : Origin
  pub session_name : Text
  pub session_information : Option Text
  pub uri : Option Text
  pub email_address : Option Text
  pub phone_number : Option Text
  pub connection_information : Option ConnectionInformation
  pub bandwidth_information : List BandwidthInformation
  pub attributes : List Attribute
  pub time : List TimeDescription
  pub media : List MediaDescription

pub record RtpMap : Type 0 where
  pub payload_type : Text
  pub enc_name : Text
  pub clock_rate : ℕ
  pub param : Option Text

-- The directions that an attribute can name, so all but `Unspecified`.
pub data Direction : Type 0 where
  send_recv recv_only send_only inactive : Direction

-- `Display` of a direction.
unfoldable pub direction_name : Direction → Text
direction_name send_recv = codes "sendrecv"
direction_name recv_only = codes "recvonly"
direction_name send_only = codes "sendonly"
direction_name inactive = codes "inactive"

-- The four names of the patterns.
unfoldable pub direction_of : Text → Option Direction
direction_of name =
    if text_eq name (codes "recvonly")
    then some recv_only
    else if text_eq name (codes "sendrecv")
    then some send_recv
    else if text_eq name (codes "sendonly")
    then some send_only
    else if text_eq name (codes "inactive")
    then some inactive
    else none
