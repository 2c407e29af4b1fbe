-- ===== src/Media/Rtp/Short.antt =====
-- rssip-media/src/rtp/header.rs: what happens to packets that are shorter than a header.
use rssip.Prelude.{◌<◌, ◌≡◌, refl, inl, inr, length, ltb, Bool-cases, arith}
use rssip.Error.{panic}
use rssip.Media.Buffer.{Buf, get, get-short, get-then_panic, remaining}
use rssip.Media.Rtp.{parse_header, parse_packet}

module _ (buf : Buf) where
  open buf use {B, view}

  -- A packet of fewer than 12 bytes is not refused with an error: parsing it panics, those of
  -- four to eleven bytes behind the length check of the parser.
  pub parse_packet-short : (b : B) → length (view b) < 12 → parse_packet buf b ≡ panic
  unfolding parse_packet parse_header
  parse_packet-short b few = elim (Bool-cases (ltb (remaining buf b) 4)) [
    | inl short ↦ rw short refl
    | inr enough ↦
        let header_panics : parse_header buf b ≡ panic = rw enough (
          get-then_panic buf 1 b _ (λ b0 r1 e1. get-then_panic buf 1 r1 _ (λ b1 r2 e2.
            get-then_panic buf 2 r2 _ (λ seq r3 e3. get-then_panic buf 4 r3 _ (λ time r4 e4.
              let none_left : get buf 4 r4 ≡ panic = get-short buf 4 r4 (omega arith) in
              rw none_left refl))))) in
        rw header_panics refl
  ]
