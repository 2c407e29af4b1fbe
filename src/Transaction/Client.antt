-- ===== src/Transaction/Client.antt =====
-- rssip/src/transaction/client.rs: the client transaction. An await is a list of wakes, what the
-- runtime reports to the task in order: a message, the end of the channel, or a timer.
pub mod Wait
pub mod Receive
pub mod Final
pub mod Transitions
pub mod Ack
pub mod Misuse
pub mod Returned
pub mod Create
pub mod Routes
