-- ===== src/Media/Rtcp.antt =====
-- rssip-media/src/rtcp: the packets, and the values of their fields.
use Prim.Native.Nat.{bit_and, bit_or}
use rssip.Prelude.{
  ℕ, zero, suc, ◌+◌, ◌-◌, ◌*◌, ◌/◌, ◌%◌, ◌^◌, Bool, true, false, Text, List, [], ◌∷◌, Option, none,
  some, ltb, ◌==◌, if◌then◌else◌,
}
use rssip.Error.{io, Result, ok, err, panic, ◌>>=◌}
use rssip.Media.Buffer.{Buf, get, try_get, try_copy, remaining, big_endian}
use rssip.Media.Rtp.{has_bit, get_u32s}
pub mod Parsing
pub mod Consumed
pub mod Kinds
pub mod Chunks
pub mod Compound
pub mod Lost

pub data ℤ : Type 0 where
  pos negsuc : ℕ → ℤ

pub record RtcpHeader : Type 0 where
  pub version : ℕ
  pub padding : Bool
  pub packet_type : ℕ
  pub length : ℕ
  pub count : ℕ

pub record ReceptionReport : Type 0 where
  pub ssrc : ℕ
  pub fraction_lost : ℕ
  pub packets_lost : ℤ
  pub last_seq : ℕ
  pub jitter : ℕ
  pub last_sr_packet : ℕ
  pub delay_since_last_sr : ℕ

pub record SenderReport : Type 0 where
  pub ssrc : ℕ
  pub ntp_timestamp : ℕ
  pub rtp_timestamp : ℕ
  pub packet_count : ℕ
  pub octet_count : ℕ
  pub reception_reports : List ReceptionReport
  pub extensions : Text

pub record ReceiverReport : Type 0 where
  pub ssrc : ℕ
  pub reception_reports : List ReceptionReport
  pub extensions : Text

pub data SdesItem : Type 0 where
  cname name email phone loc tool note priv : Text → SdesItem

pub record SourceDescriptionChunk : Type 0 where
  pub src : ℕ
  pub sdes_items : List SdesItem

pub record GoodBye : Type 0 where
  pub src_list : List ℕ
  pub reason_for_leaving : Option Text

pub record ApplicationDefined : Type 0 where
  pub src : ℕ
  pub name : Text
  pub app_data : Text
  pub sub_type : ℕ

pub data RtcpPacketKind : Type 0 where
  sr : SenderReport → RtcpPacketKind
  rr : ReceiverReport → RtcpPacketKind
  sdes : List SourceDescriptionChunk → RtcpPacketKind
  bye : GoodBye → RtcpPacketKind
  app : ApplicationDefined → RtcpPacketKind

pub record RtcpPacket : Type 0 where
  pub header : RtcpHeader
  pub packet_kind : RtcpPacketKind

-- `n as i32` of a `u32`, and the shift of an `i32`, which keeps the sign.
abbrev as_i32 : ℕ → ℤ
as_i32 n = if ltb n (2 ^ 31) then pos n else negsuc (2 ^ 32 - 1 - n)

abbrev shift_right : ℕ → ℤ → ℤ
shift_right k (pos n) = pos (n / 2 ^ k)
shift_right k (negsuc n) = negsuc (n / 2 ^ k)

-- `((lost << 8) as i32) >> 8`.
unfoldable pub sign_extend : ℕ → ℤ
sign_extend lost = shift_right 8 (as_i32 (lost * 2 ^ 8 % 2 ^ 32))

-- The item for its type, if the type is one of the eight.
unfoldable pub sdes_item : ℕ → Text → Option SdesItem
sdes_item kind t =
    if kind == 1
    then some (cname t)
    else if kind == 2
    then some (name t)
    else if kind == 3
    then some (email t)
    else if kind == 4
    then some (phone t)
    else if kind == 5
    then some (loc t)
    else if kind == 6
    then some (tool t)
    else if kind == 7
    then some (note t)
    else if kind == 8
    then some (priv t)
    else none
