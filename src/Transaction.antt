-- ===== src/Transaction.antt =====
-- rssip/src/transaction: the transaction layer.
pub mod Fsm
pub mod Timers
pub mod Key
pub mod Registry
pub mod Wakes
pub mod Client
pub mod Server
