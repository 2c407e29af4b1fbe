-- ===== src/Parser/RoundTrip.antt =====
-- rssip/src/parser.rs: a URI that is printed reads back.
pub mod Loops
pub mod Sets
pub mod Params
pub mod Hosts
pub mod Whole
pub mod Addresses
pub mod StatusLines
