-- ===== src/Tests/Packets.antt =====
-- Packets in a buffer that is a list of bytes.
use rssip.Prelude.{
  ℕ, ◌+◌, ◌^◌, ◌≤◌, ◌<◌, ◌≡◌, ◌≢◌, refl, arith, Bool, true, false, if◌then◌else◌, Text, List, [],
  ◌∷◌, Option, none, some, length, take, drop, leb, ◌%◌,
}
use rssip.Error.{Result, ok, err, panic, io, ◌>>=◌}
use rssip.Media.Buffer.{Buf}
use rssip.Media.Rtp.{RtpHeader, packet_bytes, parse_packet}
use rssip.Media.Rtp.RoundTrip.{Fits, parse_packet-packet_bytes}
use rssip.Media.Rtcp.{RtcpPacket, bye, rr}
use rssip.Media.Rtcp.Parsing.{parse_chunk, parse_compound}
use rssip.Media.Rtcp.Compound.{parse_compound-ends, parse_compound-reports_last, reports_last}
use rssip.Media.Session.{
  RtpMessage, rtp, RtpSession, received, refused, taken, full, ReadTurn, panicked, read_loop,
}
use rssip.Media.Session.Counters.{Write, write_all, write_all-counters, accepted, samples_of}
use rssip.Media.Session.Readers.{parsed, lived, end_of, read_loop-in_order}

abbrev read_slice : ℕ → Text → Option (Text × Text)
read_slice n b = if leb n (length b) then some (take n b, drop n b) else none

read_slice-enough :
    (n : ℕ) (b : Text)
    → n ≤ length b
    → (r : Text) × (read_slice n b ≡ some (take n b, r)) × (r ≡ drop n b)
read_slice-enough n b le =
    let test : leb n (length b) ≡ true = ground arith in (drop n b, rw test refl, refl)

read_slice-short : (n : ℕ) (b : Text) → length b < n → read_slice n b ≡ none
read_slice-short n b lt = let test : leb n (length b) ≡ false = ground arith in rw test refl

-- `&[u8]` as a buffer.
abbrev slice : Buf
slice = record {
  B = Text;
  view = λ b. b;
  read = read_slice;
  read_enough = read_slice-enough;
  read_short = read_slice-short;
}

abbrev header : RtpHeader
header = record {
  version = 2;
  padding = false;
  extension = false;
  marker = true;
  sequence_number = 65535;
  payload_type = 111;
  ssrc = 3735928559;
  csrc_list = 1 ∷ 4294967295 ∷ [];
  timestamp = 160;
}

header-Fits : Fits header
header-Fits = (
  omega arith,
  omega arith,
  omega arith,
  omega arith,
  omega arith,
  (omega arith, (omega arith, tt)),
)

abbrev payload : Text
payload = 1 ∷ 2 ∷ 3 ∷ []

parse_packet-packet_bytes_example :
    (r : Text) × (parse_packet slice (packet_bytes header payload)
      ≡ ok (record { header = header; payload = payload }, r))
parse_packet-packet_bytes_example =
    parse_packet-packet_bytes slice (packet_bytes header payload) header payload refl header-Fits

-- A goodbye of one source, and a receiver report of one source without reports.
abbrev goodbye_and_report : Text
goodbye_and_report = 129 ∷ 203 ∷ 0 ∷ 1 ∷ 0 ∷ 0 ∷ 0 ∷ 7 ∷ 0 ∷ 128 ∷ 201 ∷ 0 ∷ 1 ∷ 0 ∷ 0 ∷ 0 ∷ 9 ∷ []

abbrev any_text : Text → Bool
any_text t = true

parse_compound-ends_example :
    ((m : Result (List RtcpPacket × Text)) × (parse_compound slice any_text 20 goodbye_and_report
        ≡ some m))
    × (parse_chunk slice any_text goodbye_and_report ≢ panic)
parse_compound-ends_example = parse_compound-ends slice any_text 20 goodbye_and_report (omega arith)

abbrev two_packets : List RtcpPacket
two_packets =
    record {
      header = record { version = 2; padding = false; packet_type = 203; length = 1; count = 1 };
      packet_kind = bye (record { src_list = 7 ∷ []; reason_for_leaving = some [] });
    }
    ∷ record {
      header = record { version = 2; padding = false; packet_type = 201; length = 1; count = 0 };
      packet_kind = rr (record { ssrc = 9; reception_reports = []; extensions = [] });
    }
    ∷ []

abbrev no_bytes : Text
no_bytes = []

parse_compound-reports_last_example : (no_bytes ≡ []) × (reports_last two_packets ≡ true)
unfolding parse_compound
parse_compound-reports_last_example =
    parse_compound-reports_last slice any_text 20 goodbye_and_report [] two_packets refl

abbrev session : RtpSession
session = record {
  ssrc = 7;
  peer_ssrc = none;
  sequence_number = 65535;
  timestamp = 0;
  payload_type = 0;
}

-- The socket takes what is not too long.
abbrev socket_send : Text → Result ℕ
socket_send bytes = ok (length bytes)

-- The second call fails, and the third one, with the same bytes, succeeds.
abbrev socket_refuses : Text → Result ℕ
socket_refuses bytes = err io

abbrev packets : List Write
packets =
    record { send = socket_send; payload = payload; samples = 160 }
    ∷ record { send = socket_refuses; payload = payload; samples = 160 }
    ∷ record { send = socket_send; payload = payload; samples = 160 }
    ∷ []

write_all-counters_example :
    let (results, last) = write_all session packets in
    (last.sequence_number ≡ (65535 + accepted results) % 2 ^ 16)
    × (last.timestamp ≡ (0 + samples_of results packets) % 2 ^ 32)
    × (last.ssrc ≡ 7)
    × (last.payload_type ≡ 0)
write_all-counters_example = write_all-counters session packets (omega arith) (omega arith)

-- The parser of the RTP reader.
abbrev parse_rtp_message : Text → Result RtpMessage
parse_rtp_message t = parse_packet slice t >>= λ (p, r). ok (rtp p)

-- Two packets, the second for a full channel, a datagram that is too short, and a packet behind it.
abbrev turns : List ReadTurn
turns =
    (received (packet_bytes header payload), taken)
    ∷ (refused, taken)
    ∷ (received (packet_bytes header payload), full)
    ∷ (received (1 ∷ []), taken)
    ∷ (received (packet_bytes header payload), taken)
    ∷ []

read_loop-in_order_example :
    let (reader, offered) = read_loop parse_rtp_message turns in
    (offered ≡ parsed parse_rtp_message (lived parse_rtp_message turns))
    × (reader ≡ end_of parse_rtp_message turns)
read_loop-in_order_example = read_loop-in_order parse_rtp_message turns

short_datagram : (read_loop parse_rtp_message turns).0 ≡ panicked
unfolding read_loop parse_packet packet_bytes
short_datagram = refl
