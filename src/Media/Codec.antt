-- ===== src/Media/Codec.antt =====
-- rssip-media/src/codec.rs: the codecs.
use rssip.Prelude.{ℕ, Text, codes, Option, none, some}

pub record Codec : Type 0 where
  pub name : Text
  pub clock_rate : ℕ
  pub payload_type : ℕ
  pub channels : ℕ
  pub sdp_fmtp_line : Option Text

abbrev new : Text → ℕ → ℕ → ℕ → Option Text → Codec
new name clock_rate payload_type channels fmtp = record {
  name = name;
  clock_rate = clock_rate;
  payload_type = payload_type;
  channels = channels;
  sdp_fmtp_line = fmtp;
}

abbrev pub ulaw : Codec
ulaw = new (codes "PCMU") 8000 0 1 none

abbrev pub alaw : Codec
alaw = new (codes "PCMA") 8000 8 1 none

abbrev pub opus : Codec
opus = new (codes "opus") 48000 96 2 none

abbrev pub gsm : Codec
gsm = new (codes "GSM") 8000 3 1 none

abbrev pub telephone_event : Codec
telephone_event = new (codes "telephone-event") 8000 101 1 (some (codes "0-16"))
