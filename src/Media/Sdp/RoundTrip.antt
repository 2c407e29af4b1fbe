-- ===== src/Media/Sdp/RoundTrip.antt =====
-- rssip-media/src/sdp: a printed description reads back.
pub mod Words
pub mod Fields
pub mod Spaced
pub mod Heads
pub mod MediaLines
pub mod Runs
pub mod Sections
pub mod MediaSections
pub mod Whole
