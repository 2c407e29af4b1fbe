-- ===== src/Parser.antt =====
-- rssip/src/parser.rs: the parser of SIP messages, as far as start lines, URIs and parameters.
pub mod Bytes
pub mod Params
pub mod Uris
pub mod Addresses
pub mod Progress
pub mod Ends
pub mod Printing
pub mod StartLines
pub mod Printable
pub mod RoundTrip
