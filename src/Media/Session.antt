-- ===== src/Media/Session.antt =====
-- rssip-media/src/rtp/mod.rs: the session that numbers, sends and receives packets. A message is
-- read by the reader tasks; `parse` is what they parse a datagram with.
use rssip.Prelude.{
  ℕ, zero, suc, ◌+◌, ◌%◌, ◌^◌, Bool, true, false, Text, List, [], ◌∷◌, ◌++◌, Option, none, some,
  length, ltb, if◌then◌else◌,
}
use rssip.Error.{io, Result, ok, err, panic, ◌>>=◌}
use rssip.Media.Rtp.{RtpHeader, RtpPacket, send_rtp_packet}
use rssip.Media.Rtcp.{RtcpPacket}
pub mod Counters
pub mod Readers

pub data RtpMessage : Type 0 where
  rtp : RtpPacket → RtpMessage
  rtcp : RtcpPacket → RtpMessage

pub record RtpSession : Type 0 where
  pub ssrc : ℕ
  pub peer_ssrc : Option ℕ
  pub sequence_number : ℕ
  pub timestamp : ℕ
  pub payload_type : ℕ

-- `rtcp_port`: the port above, if there is one.
unfoldable pub rtcp_port : ℕ → Result ℕ
rtcp_port p = if ltb (p + 1) (2 ^ 16) then ok (p + 1) else err io

-- The three numbers of `rand::random()`.
pub record Chosen : Type 0 where
  pub ssrc : ℕ
  pub sequence_number : ℕ
  pub timestamp : ℕ

-- `RtpSession::create`, with the local and the remote port that `bind` and `connect` give: the
-- session and the two ports of the RTCP socket.
unfoldable pub create :
    Result (ℕ × ℕ) → (ℕ → ℕ → Result (Unit {0})) → Chosen → ℕ → Result (RtpSession × ℕ × ℕ)
unfolding rtcp_port
create ports rtcp_socket chosen payload_type = if ltb 127 payload_type then err io else (do
  (local, remote) ← ports
  local_rtcp ← rtcp_port local
  remote_rtcp ← rtcp_port remote
  _ ← rtcp_socket local_rtcp remote_rtcp
  ok (
    record {
      ssrc = chosen.ssrc;
      peer_ssrc = none;
      sequence_number = chosen.sequence_number;
      timestamp = chosen.timestamp;
      payload_type = payload_type;
    },
    local_rtcp,
    remote_rtcp,
  ))

-- `get_or_insert`.
abbrev get_or_insert {ℓ} : {A : Type ℓ} → Option A → A → Option A
get_or_insert none a = some a
get_or_insert (some b) a = some b

-- `RtpSession::receive`, with what the channel gives.
unfoldable pub receive : RtpSession → Option RtpMessage → Option RtpMessage × RtpSession
receive s (some (rtp p)) =
    (some (rtp p), record s { peer_ssrc = get_or_insert s.peer_ssrc p.header.ssrc })
receive s m = (m, s)

abbrev pub write_header : RtpSession → RtpHeader
write_header s = record {
  version = 2;
  padding = false;
  extension = false;
  marker = false;
  sequence_number = s.sequence_number;
  payload_type = s.payload_type;
  ssrc = s.ssrc;
  csrc_list = [];
  timestamp = s.timestamp;
}

-- `wrapping_add` on the two counters.
unfoldable pub advance : RtpSession → ℕ → RtpSession
advance s samples = record s {
  timestamp = (s.timestamp + samples) % 2 ^ 32;
  sequence_number = (s.sequence_number + 1) % 2 ^ 16;
}

abbrev after_send : RtpSession → ℕ → Result ℕ → Result ℕ × RtpSession
unfolding advance
after_send s samples (ok written) = (ok written, advance s samples)
after_send s samples (err e) = (err e, s)
after_send s samples panic = (panic, s)

-- `RtpSession::write_rtp`.
unfoldable pub write_rtp : (Text → Result ℕ) → RtpSession → Text → ℕ → Result ℕ × RtpSession
unfolding after_send send_rtp_packet
write_rtp send s payload samples =
    after_send s samples (send_rtp_packet send (write_header s) payload)

-- What `sock.recv` and the shutdown signal give a reader task.
pub data ReadEvent : Type 0 where
  shutdown refused failed : ReadEvent
  received : Text → ReadEvent

-- What `tx.try_send(msg)` answers: `Ok`, `TrySendError::Full` or `TrySendError::Closed`. The
-- channel is tokio's, and the other reader and `receive` act on it between two turns, so its answer
-- in a turn is an input.
pub data SendOutcome : Type 0 where
  taken full closed : SendOutcome

-- A turn of a reader task: what arrives, and what the channel answers if a message is offered.
abbrev pub ReadTurn : Type 0
ReadTurn = ReadEvent × SendOutcome

-- A reader task: it runs, it has left its loop, or its parser has panicked.
pub data Reader : Type 0 where
  running stopped panicked : Reader

abbrev after_offer : SendOutcome → Reader
after_offer closed = stopped
after_offer _ = running

-- What a datagram parses to is offered to the channel: the reader, and what it has offered.
abbrev pub deliver : Result RtpMessage → SendOutcome → Reader × List RtpMessage
deliver (ok m) outcome = (after_offer outcome, m ∷ [])
deliver (err e) outcome = (running, [])
deliver panic outcome = (panicked, [])

-- A turn of the loop of `spawn_reader`; where `parse` fails, the closure has logged the error.
unfoldable pub read_step : (Text → Result RtpMessage) → ReadTurn → Reader × List RtpMessage
read_step parse t = elim t.0 [
  | shutdown ↦ (stopped, [])
  | refused ↦ (running, [])
  | failed ↦ (stopped, [])
  | received datagram ↦ deliver (parse datagram) t.1
]

-- `continue` or `break`: behind a turn stands what the later ones give, as long as the reader runs.
abbrev pub continued :
    Reader × List RtpMessage → Reader × List RtpMessage → Reader × List RtpMessage
continued (running, offered) (last, more) = (last, offered ++ more)
continued (stopped, offered) later = (stopped, offered)
continued (panicked, offered) later = (panicked, offered)

-- The loop over the turns, and all messages that it offers to the channel.
unfoldable pub read_loop : (Text → Result RtpMessage) → List ReadTurn → Reader × List RtpMessage
unfolding read_step
read_loop parse [] = (running, [])
read_loop parse (t ∷ ts) = continued (read_step parse t) (read_loop parse ts)
