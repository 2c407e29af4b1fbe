-- ===== src/Lib.antt =====
-- Verification of rssip, a SIP stack in Rust: the transactions of rssip/src/transaction, the dialogs
-- and sessions of rssip/src/ua, the URIs, addresses and start lines of rssip/src/parser.rs, what
-- these need of messages and of the endpoint, the framing of a stream, the scanner of rssip-utils,
-- and the session descriptions, their negotiation, RTP and RTCP of rssip-media.
--
-- The parts and how they interact. An incoming message is read by a transport and offered to the
-- endpoint's plugins; the transaction plugin (rssip/src/transaction/mod.rs) derives a key from the
-- topmost Via and the CSeq and sends the message to the channel filed under the key. A client
-- transaction (client.rs) sends a request, retransmits it and waits for responses on its channel;
-- a server transaction (server.rs) sends responses and repeats them when the request comes again.
-- A request within a dialog goes to the dialog plugin (rssip/src/ua/dialog.rs), which derives the
-- dialog's identifier from Call-ID, From and To and sends it to the dialog's channel. All of them
-- make and send their messages through the endpoint (rssip/src/endpoint/mod.rs). Sessions negotiate
-- media with a Negotiator (rssip-media/src/sdp/negotiator.rs) and exchange it with an RtpSession
-- (rssip-media/src/rtp/mod.rs). The parsers of texts stand on the scanner.
--
-- Prelude: texts as lists of bytes, Boolean tests, lists measured by native numbers, decimals.
-- Error, Media/Error: rssip/src/error.rs and rssip-media/src/error.rs. `Result` has three ends, Ok,
--   Err and a panic, since the code has assertions, `expect`, `todo!` and `unreachable!`.
-- Scanner: rssip-utils/src/scanner/mod.rs. A scanner is a buffer, an index and a position.
-- Message/Method, Message/StatusCode: rssip/src/message/method.rs and status_code.rs.
-- Message/Quality: rssip/src/message/params/q.rs.
-- Message/Addresses, Headers, Messages: rssip/src/message, rssip/src/transport/incoming.rs and
--   outgoing.rs. A header keeps the fields that are read; the rest of it is one text.
-- Endpoint/Creation: `create_response`, `get_response_destination`, `process_route_set`,
--   `create_outgoing_request` and the loop over the plugins.
-- Endpoint/Sending, Endpoint/Delivery: `send_outgoing_request`, `send_outgoing_response` and
--   `send_response`. Encoding, the transports and the resolver are parameters.
-- Transaction/Fsm, Timers, Key, Registry: the state machine with its broadcast, the constants, the
--   keys and the table of live transactions. A channel is a number.
-- Transaction/Wakes: an `await` under timers is a list of wakes, what the runtime reports in order:
--   a message, the end of the channel, an interval or the deadline. A wait that has used up its
--   wakes is `waiting`. A schedule adds the instants in milliseconds.
-- Transaction/Client: Wait is `receive_response_if`, Receive and Final are the two public waits,
--   Create is `send`; `recv_if` is that of rssip-utils/src/peekable_receiver.rs.
-- Transaction/Server: Respond is the creation and the provisional responses, Final the final one
--   and the tasks that it leaves; what they send again is in Retransmissions.
-- Ua/Dialog: the dialogs, their table and their requests; Responses is `create_response` and the
--   two sends, Receiving what a dialog does with its channel. The random numbers and tags that the
--   code makes are arguments.
-- Transport/Framing: rssip/src/transport/decode.rs, the frames of a stream.
-- Ua/Session: rssip/src/ua/session/mod.rs, with `handle_in_dialog_request`; Incoming is the side that
--   is called, Calling the side that calls, Negotiating what both do with session descriptions. The
--   descriptions are parsed and printed by Media/Sdp.
-- Media/Sdp: session descriptions (rssip-media/src/sdp/mod.rs) with Printing, `Display`, and Setters;
--   Keywords, Parsing and Parser are rssip-media/src/sdp/parser.rs. The check of UTF-8 and the text of
--   an IP address are parameters. Progress and Ends are about the loops, RoundTrip about lines that
--   are printed and parsed.
-- Parser: start lines and addresses in rssip/src/parser.rs, with the loop of rssip/src/macros.rs.
--   Bytes has the tables, Params the parameters, Uris the URIs, Addresses the name-addrs, StartLines
--   the request line and the status line with their `Display` in rssip/src/message/mod.rs; Printing
--   is `Display` in rssip/src/message/uri.rs and params/mod.rs. An IP address is its text; std's parse
--   of it and the check of UTF-8 are parameters.
-- Media/Negotiator: the negotiator, rssip-media/src/sdp/negotiator.rs, with Offering for
--   `create_offer`; Media/Codec: rssip-media/src/codec.rs.
-- Media/Buffer: the trait `bytes::Buf` as a record of a view, a read and its laws.
-- Media/Rtp, Media/Rtcp: rssip-media/src/rtp/header.rs, packet.rs and rssip-media/src/rtcp. A parser
--   takes a buffer and gives the buffer behind what it has read.
-- Media/Session: the RtpSession and its reader tasks, rssip-media/src/rtp/mod.rs. What the socket
--   and the channel answer in each turn of a reader or each call of a writer is an input.
-- Tests: runs on concrete values.
--
-- Bounds and fuel. Most loops recurse on the wakes, the messages, the addresses or the media. The
-- loops of RTCP, of the session descriptions and of the parameters and headers of an address recurse
-- on fuel: the number of bytes that remain and one more is enough, as each turn reads a byte at
-- least. The counters of RTP wrap around at 2 ^ 16 and 2 ^ 32, the numbers that the parsers read have
-- the limits of their types. Instants are numbers of milliseconds without an upper end; elsewhere
-- ports and the CSeq number are only compared, so their width plays no part.
--
-- Not modelled: parsing and printing of SIP messages but for start lines and addresses, sockets, the
-- resolver, the authentication headers; the removal of a transaction from the table when it is
-- dropped; log output. A SIP message is sent to a channel whose receiver is alive; that such a
-- channel is full is not modelled.
pub mod Prelude
pub mod Error
pub mod Media
pub mod Message
pub mod Endpoint
pub mod Transaction
pub mod Ua
pub mod Scanner
pub mod Parser
pub mod Transport
pub mod Tests
