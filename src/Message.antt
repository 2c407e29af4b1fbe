-- ===== src/Message.antt =====
-- rssip/src/message: what the transactions and dialogs read of a SIP message.
pub mod Method
pub mod Addresses
pub mod StatusCode
pub mod Headers
pub mod Messages
pub mod Quality
