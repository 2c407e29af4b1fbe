-- ===== src/Transaction/Server.antt =====
-- rssip/src/transaction/server.rs: the server transaction.
pub mod Respond
pub mod Final
pub mod Validity
pub mod Retransmissions
