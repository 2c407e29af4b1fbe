-- ===== src/Transport.antt =====
-- rssip/src/transport: the framing of messages on a stream.
pub mod Framing
