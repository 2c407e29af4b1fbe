-- ===== src/Media/Sdp/Keywords.antt =====
-- rssip-media/src/sdp/parser.rs: the bytes of a token, and the `match`es on the words of a line.
use rssip.Prelude.{
  ℕ, Bool, ◌||◌, within, ◌==◌, Text, codes, text_eq, Option, none, some, any, if◌then◌else◌,
}
use rssip.Media.Sdp.{
  MediaType, audio, video, text, message, SdpTransport, udp, rtp_avp, rtp_avpf, rtp_savp, rtp_savpf,
  AddrType, ip4, ip6, NetType, in_net, other_net, Bwtype, bw_ct, bw_as, bw_rr, bw_rs, bw_tias,
  bw_other,
}

-- `TOKEN_TAB`.
unfoldable pub is_token : ℕ → Bool
is_token b =
    within 97 122 b
    || within 65 90 b
    || within 48 57 b
    || any (λ c. c == b) (codes "!#$%&'*+-.^_`{|}~")

unfoldable pub media_type_of : Text → Option MediaType
media_type_of t =
    if text_eq t (codes "audio")
    then some audio
    else if text_eq t (codes "video")
    then some video
    else if text_eq t (codes "text")
    then some text
    else if text_eq t (codes "message")
    then some message
    else none

unfoldable pub transport_of : Text → Option SdpTransport
transport_of t =
    if text_eq t (codes "UDP") || text_eq t (codes "udp")
    then some udp
    else if text_eq t (codes "RTP/AVP")
    then some rtp_avp
    else if text_eq t (codes "RTP/AVPF")
    then some rtp_avpf
    else if text_eq t (codes "RTP/SAVP")
    then some rtp_savp
    else if text_eq t (codes "RTP/SAVPF")
    then some rtp_savpf
    else none

unfoldable pub addr_type_of : Text → Option AddrType
addr_type_of t =
    if text_eq t (codes "IP4") then some ip4 else if text_eq t (codes "IP6") then some ip6 else none

unfoldable pub net_type_of : Text → NetType
net_type_of t = if text_eq t (codes "IN") then in_net else other_net t

unfoldable pub bwtype_of : Text → Bwtype
bwtype_of t =
    if text_eq t (codes "CT")
    then bw_ct
    else if text_eq t (codes "AS")
    then bw_as
    else if text_eq t (codes "RR")
    then bw_rr
    else if text_eq t (codes "RS")
    then bw_rs
    else if text_eq t (codes "TIAS")
    then bw_tias
    else bw_other t
