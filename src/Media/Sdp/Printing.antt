-- ===== src/Media/Sdp/Printing.antt =====
-- rssip-media/src/sdp/mod.rs: `Display` and `Encode` of a session description. `show_ip` is the
-- standard library's `Display for IpAddr`.
use rssip.Prelude.{ℕ, suc, Text, codes, List, [], ◌∷◌, ◌++◌, Option, none, some, decimal}
use rssip.Media.Sdp.{
  MediaType, audio, video, text, application, message, SdpTransport, udp, rtp_avp, rtp_avpf,
  rtp_savp, rtp_savpf, AddrType, ip4, ip6, NetType, in_net, other_net, IpAddr,
  ConnectionInformation, Bwtype, bw_ct, bw_as, bw_rr, bw_rs, bw_tias, bw_other,
  BandwidthInformation, Attribute, Origin, ℤ, pos, negsuc, RepeatTimes, TimeDescription,
  MediaDescription, SessionDescription,
}

unfoldable pub media_name : MediaType → Text
media_name audio = codes "audio"
media_name video = codes "video"
media_name text = codes "text"
media_name application = codes "application"
media_name message = codes "message"

unfoldable pub transport_name : SdpTransport → Text
transport_name udp = codes "udp"
transport_name rtp_avp = codes "RTP/AVP"
transport_name rtp_avpf = codes "RTP/AVPF"
transport_name rtp_savp = codes "RTP/SAVP"
transport_name rtp_savpf = codes "RTP/SAVPF"

unfoldable pub addr_name : AddrType → Text
addr_name ip4 = codes "IP4"
addr_name ip6 = codes "IP6"

unfoldable pub net_name : NetType → Text
net_name in_net = codes "IN"
net_name (other_net t) = t

unfoldable pub bwtype_name : Bwtype → Text
bwtype_name bw_ct = codes "CT"
bwtype_name bw_as = codes "AS"
bwtype_name bw_rr = codes "RR"
bwtype_name bw_rs = codes "RS"
bwtype_name bw_tias = codes "TIAS"
bwtype_name (bw_other t) = t

unfoldable pub signed : ℤ → Text
signed (pos n) = decimal n
signed (negsuc n) = 45 ∷ decimal (suc n)

abbrev pub crlf : Text
crlf = 13 ∷ 10 ∷ []

abbrev pub concat_map {ℓ} : {A : Type ℓ} → (A → Text) → List A → Text
concat_map f [] = []
concat_map f (a ∷ rest) = f a ++ concat_map f rest

abbrev pub if_some {ℓ} : {A : Type ℓ} → (A → Text) → Option A → Text
if_some f none = []
if_some f (some a) = f a

-- `<field>=<text>` and the end of its line.
abbrev pub text_line : ℕ → Text → Text
text_line field t = field ∷ 61 ∷ t ++ crlf

abbrev pub spaced : Text → Text
spaced t = 32 ∷ t

unfoldable pub value_text : Option Text → Text
value_text none = []
value_text (some v) = 58 ∷ v

unfoldable pub show_attribute : Attribute → Text
unfolding value_text
show_attribute a = text_line b'a' (a.name ++ value_text a.value)

unfoldable pub show_bandwidth : BandwidthInformation → Text
unfolding bwtype_name
show_bandwidth b = text_line b'b' (bwtype_name b.bwtype ++ 58 ∷ decimal b.bandwidth)

unfoldable pub show_repeat : RepeatTimes → Text
unfolding signed
show_repeat r = text_line b'r' (
    signed r.repeat_interval
    ++ spaced (signed r.active_duration ++ concat_map (λ offset. spaced (signed offset)) r.offsets))

unfoldable pub show_time : TimeDescription → Text
unfolding show_repeat
show_time t =
    text_line b't' (decimal t.time_active.start_time ++ spaced (decimal t.time_active.stop_time))
    ++ concat_map show_repeat t.repeat_times

abbrev pub ports_text : Option ℕ → Text
ports_text none = []
ports_text (some n) = 47 ∷ decimal n

unfoldable pub show_media_line : MediaDescription → Text
unfolding media_name transport_name
show_media_line m = text_line b'm' (
    media_name m.media_type
    ++ spaced (decimal m.port)
    ++ ports_text m.number_of_ports
    ++ spaced (transport_name m.proto)
    ++ concat_map spaced m.media_formats)

module _ (show_ip : IpAddr → Text) where
  unfoldable pub show_origin : Origin → Text
  unfolding net_name addr_name
  show_origin o = text_line b'o' (
      o.user
      ++ spaced (decimal o.session_id)
      ++ spaced (decimal o.session_version)
      ++ spaced (net_name o.nettype)
      ++ spaced (addr_name o.addrtype)
      ++ spaced (show_ip o.unicast_address))

  unfoldable pub show_connection : ConnectionInformation → Text
  unfolding net_name addr_name
  show_connection c =
      text_line b'c' (
        net_name c.nettype ++ spaced (addr_name c.addrtype) ++ spaced (show_ip c.conection_address))

  unfoldable pub show_media : MediaDescription → Text
  unfolding show_media_line show_connection show_bandwidth show_attribute
  show_media m =
      show_media_line m
      ++ if_some (text_line b't') m.title
      ++ if_some show_connection m.connection_information
      ++ concat_map show_bandwidth m.bandwidth_information
      ++ concat_map show_attribute m.attributes

  unfoldable pub show_sdp : SessionDescription → Text
  unfolding show_origin show_connection show_bandwidth show_time show_attribute show_media
  show_sdp d =
      text_line b'v' (codes "0")
      ++ show_origin d.origin
      ++ text_line b's' d.session_name
      ++ if_some (text_line b'i') d.session_information
      ++ if_some (text_line b'u') d.uri
      ++ if_some (text_line b'e') d.email_address
      ++ if_some (text_line b'p') d.phone_number
      ++ if_some show_connection d.connection_information
      ++ concat_map show_bandwidth d.bandwidth_information
      ++ concat_map show_time d.time
      ++ concat_map show_attribute d.attributes
      ++ concat_map show_media d.media
