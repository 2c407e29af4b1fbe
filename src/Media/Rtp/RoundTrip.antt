-- ===== src/Media/Rtp/RoundTrip.antt =====
-- rssip-media/src/rtp: a packet that is sent is the packet that is parsed.
use rssip.Prelude.{
  ℕ, ◌+◌, ◌*◌, ◌^◌, ◌≤◌, ◌<◌, ◌≡◌, refl, ap, ◌∙◌, inl, inr, true, false, Text, List, [], ◌∷◌, ◌++◌,
  some, All, length, length-append, take, ltb, leb, if◌then◌else◌, Bool-cases, arith,
}
use rssip.Error.{io, Result, ok, err}
use rssip.Media.Buffer.{
  Buf, get, remaining, put_u16, put_u32, big_endian-put_u16, big_endian-put_u32, take-append,
  get-append,
}
use rssip.Media.Rtp.{
  RtpHeader, get_u32s, parse_header, parse_packet, put_u32s, packet_bytes, total_size,
  max_rtp_packet_size, send_rtp_packet,
}
use rssip.Media.Rtp.Bits.{first_byte, second_byte}

-- What the writer takes: a header whose fields fit into their bits.
abbrev pub Fits : RtpHeader → Type 0
Fits h =
    (length h.csrc_list ≤ 15)
    × (h.payload_type < 128)
    × (h.sequence_number < 2 ^ 16)
    × (h.timestamp < 2 ^ 32)
    × (h.ssrc < 2 ^ 32)
    × All (λ v. v < 2 ^ 32) h.csrc_list

take_all : (t : Text) → take (length t) t ≡ t
take_all [] = refl
take_all (c ∷ t) = ap (λ (s : Text). c ∷ s) (take_all t)

module _ (buf : Buf) where
  open buf use {B, view, read, read_enough}

  got_u8 :
      (b : B) (v : ℕ) (rest : Text)
      → view b ≡ v ∷ rest
      → (r : B) × (get buf 1 b ≡ ok (v, r)) × (view r ≡ rest)
  got_u8 b v rest e =
      let (r, got, left) = get-append buf b (v ∷ []) rest e in
      let same : 0 * 256 + v ≡ v = omega arith in (r, got ∙ ap (λ (n : ℕ). ok (n, r)) same, left)

  got_u16 :
      (b : B) (v : ℕ) (rest : Text)
      → view b ≡ put_u16 v ++ rest
      → v < 2 ^ 16
      → (r : B) × (get buf 2 b ≡ ok (v, r)) × (view r ≡ rest)
  got_u16 b v rest e lt =
      let (r, got, left) = get-append buf b (put_u16 v) rest e in
      (r, got ∙ ap (λ (n : ℕ). ok (n, r)) (big_endian-put_u16 v lt), left)

  got_u32 :
      (b : B) (v : ℕ) (rest : Text)
      → view b ≡ put_u32 v ++ rest
      → v < 2 ^ 32
      → (r : B) × (get buf 4 b ≡ ok (v, r)) × (view r ≡ rest)
  got_u32 b v rest e lt =
      let (r, got, left) = get-append buf b (put_u32 v) rest e in
      (r, got ∙ ap (λ (n : ℕ). ok (n, r)) (big_endian-put_u32 v lt), left)

  got_u32s :
      (b : B) (vs : List ℕ) (rest : Text)
      → view b ≡ put_u32s vs ++ rest
      → All (λ v. v < 2 ^ 32) vs
      → (r : B) × (get_u32s buf (length vs) b ≡ ok (vs, r)) × (view r ≡ rest)
  unfolding get_u32s put_u32s
  got_u32s b [] rest e fits = (b, refl, e)
  got_u32s b (v ∷ vs) rest e fits =
      let (r, got, left) = got_u32 b v (put_u32s vs ++ rest) e fits.0 in
      let (s, more, over) = got_u32s r vs rest left fits.1 in (s, rw (got, more) refl, over)

  -- All that remains is the payload.
  got_rest : (b : B) → (r : B) × (read (remaining buf b) b ≡ some (view b, r))
  got_rest b =
      let (r, got, left) = read_enough (remaining buf b) b (omega arith) in
      (r, got ∙ ap (λ (t : Text). some (t, r)) (take_all (view b)))

  parse_header-enough :
      (b : B) (h : RtpHeader) (payload : Text)
      → view b ≡ packet_bytes h payload
      → ltb (remaining buf b) 4 ≡ false
  unfolding packet_bytes
  parse_header-enough b h payload e =
      let size = ap (λ (t : Text). length t) e in ground (arith, size)

  -- Whatever buffer gives the bytes that are written for a header, the header is read from it, as
  -- version 2 without padding and extension, and the payload remains.
  parse_header-packet_bytes :
      (b : B) (h : RtpHeader) (payload : Text)
      → view b ≡ packet_bytes h payload
      → Fits h
      → (r : B) × (parse_header buf b
          ≡ ok (record h { version = 2; padding = false; extension = false }, r))
        × (view r ≡ payload)
  unfolding parse_header packet_bytes
  parse_header-packet_bytes b h payload e fits =
      let (few, kind, seq, time, ssrc, csrcs) = fits in
      let (version, pad, ext, count) = first_byte (length h.csrc_list) few in
      let (mark, low) = second_byte h.marker h.payload_type kind in
      let (b1, got1, left1) = got_u8 b _ _ e in
      let (b2, got2, left2) = got_u8 b1 _ _ left1 in
      let (b3, got3, left3) = got_u16 b2 h.sequence_number _ left2 seq in
      let (b4, got4, left4) = got_u32 b3 h.timestamp _ left3 time in
      let (b5, got5, left5) = got_u32 b4 h.ssrc _ left4 ssrc in
      let (b6, got6, left6) = got_u32s b5 h.csrc_list payload left5 csrcs in
      let enough = parse_header-enough b h payload e in
      (
        b6,
        rw (enough, got1, got2, got3, got4, got5, count, got6, version, pad, ext, mark, low) refl,
        left6,
      )

  -- A packet that is written is the packet that is parsed: for a header with at most 15 CSRCs and
  -- fields that fit into their bits, `RtpPacket::parse` on the bytes that `send_rtp_packet` writes
  -- gives the payload and the header, as version 2 with neither padding nor extension.
  pub parse_packet-packet_bytes :
      (b : B) (h : RtpHeader) (payload : Text)
      → view b ≡ packet_bytes h payload
      → Fits h
      → (r : B) × (parse_packet buf b
          ≡ ok (
            record {
              header = record h { version = 2; padding = false; extension = false };
              payload = payload;
            },
            r,
          ))
  unfolding parse_packet
  parse_packet-packet_bytes b h payload e fits =
      let (b6, got, left) = parse_header-packet_bytes b h payload e fits in
      let (r, all) = got_rest b6 in (r, rw (got, all, left) refl)

length-put_u32s : (vs : List ℕ) → length (put_u32s vs) ≡ length vs * 4
unfolding put_u32s
length-put_u32s [] = refl
length-put_u32s (v ∷ vs) = omega (arith, length-put_u32s vs)

length-packet_bytes :
    (h : RtpHeader) (payload : Text) → length (packet_bytes h payload) ≡ total_size h payload
unfolding packet_bytes
length-packet_bytes h payload =
    omega (arith, length-append (put_u32s h.csrc_list) payload, length-put_u32s h.csrc_list)

take_front : (n : ℕ) (a b : Text) → length a ≡ n → take n (a ++ b) ≡ a
take_front n a b e = rw (← e) (take-append a b)

-- `send_rtp_packet` refuses a packet of more than 1500 bytes with an error. Any other packet fits
-- into the buffer, so nothing panics, and the socket is given the header and the payload and no
-- byte of the buffer behind them.
pub send_rtp_packet-exact :
    (send : Text → Result ℕ) (h : RtpHeader) (payload : Text)
    → send_rtp_packet send h payload ≡ (
        if ltb max_rtp_packet_size (total_size h payload)
        then err io
        else send (packet_bytes h payload))
unfolding send_rtp_packet
send_rtp_packet-exact send h payload =
    let size = length-packet_bytes h payload in
    elim (Bool-cases (ltb max_rtp_packet_size (total_size h payload))) [
      | inl large ↦ rw large refl
      | inr small ↦
          let fits : leb (length (packet_bytes h payload)) max_rtp_packet_size ≡ true =
            ground (arith, size) in
          rw (small, fits)
            (ap send (take_front (total_size h payload) (packet_bytes h payload) _ size))
    ]
