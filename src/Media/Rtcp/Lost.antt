-- ===== src/Media/Rtcp/Lost.antt =====
-- rssip-media/src/rtcp/packet.rs: the count of lost packets of a reception report.
use rssip.Prelude.{
  ℕ, ◌-◌, ◌*◌, ◌/◌, ◌%◌, ◌^◌, ◌<◌, ◌≡◌, refl, inl, inr, ltb, if◌then◌else◌, Bool-cases, true, false,
  arith,
}
use rssip.Media.Rtcp.{pos, negsuc, sign_extend}

-- The two shifts read 24 bits as a number in two's complement: one whose highest bit is not set
-- is kept, and from any other one `2 ^ 24` is taken off.
pub sign_extend-twos_complement :
    (lost : ℕ)
    → lost < 2 ^ 24
    → sign_extend lost ≡ (if ltb lost (2 ^ 23) then pos lost else negsuc (2 ^ 24 - 1 - lost))
unfolding sign_extend
sign_extend-twos_complement lost fits =
    let whole : lost * 2 ^ 8 % 2 ^ 32 ≡ lost * 2 ^ 8 = omega arith in
    elim (Bool-cases (ltb lost (2 ^ 23))) [
      | inl low ↦
          let test : ltb (lost * 2 ^ 8) (2 ^ 31) ≡ true = ground arith in
          let back : lost * 2 ^ 8 / 2 ^ 8 ≡ lost = omega arith in rw (whole, test, back, low) refl
      | inr high ↦
          let test : ltb (lost * 2 ^ 8) (2 ^ 31) ≡ false = ground arith in
          let back : (2 ^ 32 - 1 - lost * 2 ^ 8) / 2 ^ 8 ≡ 2 ^ 24 - 1 - lost = ground arith in
          rw (whole, test, back, high) refl
    ]
