-- ===== src/Media.antt =====
-- rssip-media/src: the parts of the media library that sessions rest on.
pub mod Error
pub mod Buffer
pub mod Rtp
pub mod Rtcp
pub mod Session
pub mod Sdp
pub mod Codec
pub mod Negotiator
