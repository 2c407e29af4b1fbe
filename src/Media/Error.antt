-- ===== src/Media/Error.antt =====
-- rssip-media/src/error.rs, without the texts and positions of a parse error.
pub data ParseSdpError : Type 0 where
  sdp_invalid_protocol_version sdp_unknow_media_type sdp_unknow_addr_type : ParseSdpError
  sdp_unknow_transport scanner_error syntax_error : ParseSdpError

pub data MediaError : Type 0 where
  parse_sdp_error : ParseSdpError → MediaError
  sdp_time_description_not_found err_negotiation_is_done : MediaError
  err_invalid_nego_state parse_int : MediaError
