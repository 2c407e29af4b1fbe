-- ===== src/Media/Session/Counters.antt =====
-- rssip-media/src/rtp/mod.rs: the numbers of the packets that a session writes.
use rssip.Prelude.{ℕ, suc, ◌+◌, ◌%◌, ◌^◌, ◌<◌, ◌≡◌, refl, inl, inr, Text, List, [], ◌∷◌, arith}
use rssip.Error.{Result, ok, err, panic, Result-cases}
use rssip.Media.Rtp.{send_rtp_packet}
use rssip.Media.Session.{RtpSession, write_header, write_rtp, after_send, advance}

-- A call of `write_rtp`, with what the socket does then.
pub record Write : Type 0 where
  pub send : Text → Result ℕ
  pub payload : Text
  pub samples : ℕ

-- Several calls of `write_rtp`, one after the other: their results, and the session behind them.
unfoldable pub write_all : RtpSession → List Write → List (Result ℕ) × RtpSession
unfolding write_rtp
write_all s [] = ([], s)
write_all s (w ∷ more) =
    let (result, after) = write_rtp w.send s w.payload w.samples in
    let (results, last) = write_all after more in (result ∷ results, last)

-- How many results are `Ok`.
abbrev pub accepted : List (Result ℕ) → ℕ
accepted [] = 0
accepted (ok n ∷ rs) = suc (accepted rs)
accepted (err e ∷ rs) = accepted rs
accepted (panic ∷ rs) = accepted rs

-- The samples of the packets whose result is `Ok`.
abbrev pub samples_of : List (Result ℕ) → List Write → ℕ
samples_of (ok n ∷ rs) (p ∷ ps) = p.samples + samples_of rs ps
samples_of (err e ∷ rs) (p ∷ ps) = samples_of rs ps
samples_of (panic ∷ rs) (p ∷ ps) = samples_of rs ps
samples_of _ _ = 0

-- Whatever the socket answers in each call, the session's counters count the packets that are
-- accepted and no others: the sequence number has gone up by their number modulo 2 ^ 16, the
-- timestamp by their samples modulo 2 ^ 32; the synchronization source and the payload type stay.
pub write_all-counters :
    (s : RtpSession) (packets : List Write)
    → s.sequence_number < 2 ^ 16
    → s.timestamp < 2 ^ 32
    → let (results, last) = write_all s packets in
      (last.sequence_number ≡ (s.sequence_number + accepted results) % 2 ^ 16)
      × (last.timestamp ≡ (s.timestamp + samples_of results packets) % 2 ^ 32)
      × (last.ssrc ≡ s.ssrc)
      × (last.payload_type ≡ s.payload_type)
unfolding write_all after_send advance
write_all-counters s [] few early = (omega arith, omega arith, refl, refl)
write_all-counters s (w ∷ more) few early =
    elim (Result-cases (send_rtp_packet w.send (write_header s) w.payload)) [
      | inl (n, sent) ↦
          let (seq, time, ssrc, kind) =
            write_all-counters (advance s w.samples) more (omega arith) (omega arith) in
          rw (write_rtp, sent) (omega (arith, seq), omega (arith, time), ssrc, kind)
      | inr (inl (e, failed)) ↦ rw (write_rtp, failed) (write_all-counters s more few early)
      | inr (inr stops) ↦ rw (write_rtp, stops) (write_all-counters s more few early)
    ]
