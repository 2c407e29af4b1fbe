-- ===== src/Media/Rtp.antt =====
-- rssip-media/src/rtp/header.rs, packet.rs and the packet writer of mod.rs.
use Prim.Native.Nat.{bit_and, bit_or}
use rssip.Prelude.{
  ℕ, zero, suc, ◌+◌, ◌-◌, ◌*◌, ◌/◌, ◌%◌, ◌^◌, Bool, true, false, not, Text, List, [], ◌∷◌, ◌++◌,
  length, take, replicate, ltb, leb, ◌==◌, if◌then◌else◌,
}
use rssip.Error.{io, Result, ok, err, panic, ◌>>=◌}
use rssip.Media.Buffer.{Buf, get, or_panic, remaining, put_u16, put_u32}
pub mod Bits
pub mod RoundTrip
pub mod Short

pub record RtpHeader : Type 0 where
  pub version : ℕ
  pub padding : Bool
  pub extension : Bool
  pub marker : Bool
  pub sequence_number : ℕ
  pub payload_type : ℕ
  pub ssrc : ℕ
  pub csrc_list : List ℕ
  pub timestamp : ℕ

pub record RtpPacket : Type 0 where
  pub header : RtpHeader
  pub payload : Text

-- A bit of a byte, by its mask.
abbrev pub has_bit : ℕ → ℕ → Bool
has_bit mask b = not (bit_and b mask == 0)

module _ (buf : Buf) where
  open buf use {B, read}

  -- `(0..n).map(|_| get_u32()).collect()`.
  unfoldable pub get_u32s : ℕ → B → Result (List ℕ × B)
  get_u32s zero b = ok ([], b)
  get_u32s (suc n) b = do (v, b) ← get buf 4 b; (vs, b) ← get_u32s n b; ok (v ∷ vs, b)

  -- `RtpHeader::parse`. The methods `get_…` panic where bytes are missing.
  unfoldable pub parse_header : B → Result (RtpHeader × B)
  unfolding get_u32s
  parse_header b = if ltb (remaining buf b) 4 then panic else (do
    (b0, b) ← get buf 1 b
    (b1, b) ← get buf 1 b
    (seq, b) ← get buf 2 b
    (time, b) ← get buf 4 b
    (ssrc, b) ← get buf 4 b
    (csrcs, b) ← get_u32s (bit_and b0 15) b
    ok (
      record {
        version = b0 / 2 ^ 6;
        padding = has_bit 32 b0;
        extension = has_bit 16 b0;
        marker = has_bit 128 b1;
        payload_type = bit_and b1 127;
        sequence_number = seq;
        timestamp = time;
        ssrc = ssrc;
        csrc_list = csrcs;
      },
      b,
    ))

  -- `RtpPacket::parse`: the padding of a packet is a `todo!`.
  unfoldable pub parse_packet : B → Result (RtpPacket × B)
  unfolding parse_header
  parse_packet b = do
    (h, b) ← parse_header b
    (payload, b) ← or_panic (read (remaining buf b) b)
    if h.padding then panic else ok (record { header = h; payload = payload }, b)

-- The bytes of the 32-bit numbers, one after the other.
unfoldable pub put_u32s : List ℕ → Text
put_u32s [] = []
put_u32s (v ∷ vs) = put_u32 v ++ put_u32s vs

abbrev bit_of : Bool → ℕ
bit_of true = 1
bit_of false = 0

abbrev pub max_rtp_packet_size : ℕ
max_rtp_packet_size = 1500

abbrev pub total_size : RtpHeader → Text → ℕ
total_size h payload = 12 + length h.csrc_list * 4 + length payload

-- What the calls of `put_…` write, one after the other.
unfoldable pub packet_bytes : RtpHeader → Text → Text
unfolding put_u32s
packet_bytes h payload =
    bit_or (2 * 2 ^ 6) (length h.csrc_list % 256)
      ∷ bit_or (bit_of h.marker * 2 ^ 7) h.payload_type
      ∷ put_u16 h.sequence_number
    ++ put_u32 h.timestamp
    ++ put_u32 h.ssrc
    ++ put_u32s h.csrc_list
    ++ payload

-- A buffer of `size` zeros with the bytes written in front: `put_…` panics where they do not fit.
abbrev pub written_into : ℕ → Text → Result Text
written_into size bytes =
    if leb (length bytes) size then ok (bytes ++ replicate (size - length bytes) 0) else panic

-- `send_rtp_packet`, with the socket's `send`.
unfoldable pub send_rtp_packet : (Text → Result ℕ) → RtpHeader → Text → Result ℕ
unfolding packet_bytes
send_rtp_packet send h payload =
    if ltb max_rtp_packet_size (total_size h payload) then err io else (do
      dst ← written_into max_rtp_packet_size (packet_bytes h payload)
      send (take (total_size h payload) dst))
