-- ===== src/Ua.antt =====
-- rssip/src/ua: dialogs and sessions.
pub mod Dialog
pub mod Session
