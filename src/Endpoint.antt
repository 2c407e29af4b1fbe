-- ===== src/Endpoint.antt =====
-- rssip/src/endpoint: what the endpoint does for transactions, dialogs and sessions.
pub mod Sending
pub mod Delivery
pub mod Creation
