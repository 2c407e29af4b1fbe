-- ===== src/Media/Rtcp/Parsing.antt =====
-- rssip-media/src/rtcp: the parsers of the packets. `is_utf8` is the check of `String::from_utf8`.
use Prim.Native.Nat.{bit_and, bit_or}
use rssip.Prelude.{
  ℕ, zero, suc, ◌*◌, ◌/◌, ◌^◌, Bool, true, false, Text, List, [], ◌∷◌, Option, none, some, ltb,
  ◌==◌, if◌then◌else◌,
}
use rssip.Error.{io, Result, ok, err, panic, ◌>>=◌}
use rssip.Media.Buffer.{Buf, get, try_get, try_copy, remaining, big_endian}
use rssip.Media.Rtp.{has_bit, get_u32s}
use rssip.Media.Rtcp.{
  RtcpHeader, ReceptionReport, SdesItem, SourceDescriptionChunk, RtcpPacketKind, RtcpPacket, sr, rr,
  sdes, bye, app, sign_extend, sdes_item,
}

-- A step that ends a loop where it fails.
abbrev pub next {ℓ κ} :
    {A : Type ℓ} {C : Type κ} → Result A → (A → Option (Result C)) → Option (Result C)
next (ok a) f = f a
next (err e) f = some (err e)
next panic f = some panic

-- What a loop gives on enough fuel; one that runs out of it counts as a panic.
abbrev pub settled {ℓ} : {A : Type ℓ} → Option (Result A) → Result A
settled none = panic
settled (some r) = r

module _ (buf : Buf) where
  open buf use {B, read}

  -- `items.push(item)`, in front of what the rest of the loop pushes.
  abbrev pub pushed {ℓ} :
      {A : Type ℓ} → A → Option (Result (List A × B)) → Option (Result (List A × B))
  pushed a none = none
  pushed a (some m) = some (m >>= λ (more, b). ok (a ∷ more, b))

  -- `for _ in 0..n`, with what each turn pushes.
  unfoldable pub times {ℓ} : {A : Type ℓ} → (B → Result (A × B)) → ℕ → B → Result (List A × B)
  times p zero b = ok ([], b)
  times p (suc n) b = do (a, b) ← p b; (more, b) ← times p n b; ok (a ∷ more, b)

  -- `RtcpHeader::parse`.
  unfoldable pub parse_header : B → Result (RtcpHeader × B)
  parse_header b = do
    (b0, b) ← try_get buf 1 b
    (kind, b) ← try_get buf 1 b
    (length, b) ← try_get buf 2 b
    ok (
      record {
        version = b0 / 2 ^ 6;
        padding = has_bit 32 b0;
        packet_type = kind;
        length = length;
        count = bit_and b0 31;
      },
      b,
    )

  -- `ReceptionReport::parse`.
  unfoldable pub parse_reception_report : B → Result (ReceptionReport × B)
  unfolding sign_extend
  parse_reception_report b = if ltb (remaining buf b) 24 then panic else (do
    (ssrc, b) ← get buf 4 b
    (fraction, b) ← get buf 1 b
    (high, b) ← get buf 1 b
    (middle, b) ← get buf 1 b
    (low, b) ← get buf 1 b
    (seq, b) ← get buf 4 b
    (jitter, b) ← get buf 4 b
    (last_sr, b) ← get buf 4 b
    (delay, b) ← get buf 4 b
    ok (
      record {
        ssrc = ssrc;
        fraction_lost = fraction;
        packets_lost = sign_extend (bit_or (bit_or (high * 2 ^ 16) (middle * 2 ^ 8)) low);
        last_seq = seq;
        jitter = jitter;
        last_sr_packet = last_sr;
        delay_since_last_sr = delay;
      },
      b,
    ))

  -- `read_bytes(buf, buf.remaining())`.
  abbrev pub read_rest : B → Result (Text × B)
  read_rest b = try_copy buf (remaining buf b) b

  unfoldable pub parse_sender_report : RtcpHeader → B → Result (RtcpPacketKind × B)
  unfolding times parse_reception_report
  parse_sender_report h b = do
    (ssrc, b) ← try_get buf 4 b
    (ntp, b) ← try_get buf 8 b
    (time, b) ← try_get buf 4 b
    (packets, b) ← try_get buf 4 b
    (octets, b) ← try_get buf 4 b
    (reports, b) ← times parse_reception_report h.count b
    (rest, b) ← read_rest b
    ok (
      sr (record {
        ssrc = ssrc;
        ntp_timestamp = ntp;
        rtp_timestamp = time;
        packet_count = packets;
        octet_count = octets;
        reception_reports = reports;
        extensions = rest;
      }),
      b,
    )

  unfoldable pub parse_receiver_report : RtcpHeader → B → Result (RtcpPacketKind × B)
  unfolding times parse_reception_report
  parse_receiver_report h b = do
    (ssrc, b) ← try_get buf 4 b
    (reports, b) ← times parse_reception_report h.count b
    (rest, b) ← read_rest b
    ok (rr (record { ssrc = ssrc; reception_reports = reports; extensions = rest }), b)

  unfoldable pub parse_application_defined : RtcpHeader → B → Result (RtcpPacketKind × B)
  parse_application_defined h b = do
    (src, b) ← try_get buf 4 b
    (label, b) ← try_copy buf 4 b
    (rest, b) ← read_rest b
    ok (app (record { src = src; name = label; app_data = rest; sub_type = h.count }), b)

  module _ (is_utf8 : Text → Bool) where
    unfoldable pub read_string : ℕ → B → Result (Text × B)
    read_string n b = do
      (bytes, b) ← try_copy buf n b
      if is_utf8 bytes then ok (bytes, b) else err io

    abbrev pub of_kind : Option SdesItem → B → Result (SdesItem × B)
    of_kind none b = err io
    of_kind (some item) b = ok (item, b)

    -- The length and the text of an item, behind its type.
    unfoldable pub parse_item : ℕ → B → Result (SdesItem × B)
    unfolding read_string sdes_item
    parse_item kind b = do
      (size, b) ← try_get buf 1 b
      (text, b) ← read_string size b
      of_kind (sdes_item kind text) b

    -- The loop over the items of a chunk: `none` where the fuel ends before the loop.
    unfoldable pub parse_items : ℕ → B → Option (Result (List SdesItem × B))
    unfolding parse_item
    parse_items zero b = none
    parse_items (suc fuel) b = next (try_get buf 1 b) (λ (kind, b). elim (kind == 0) [
      | true ↦ some (ok ([], b))
      | false ↦ next (parse_item kind b) (λ (item, b). pushed item (parse_items fuel b))
    ])

    -- `SourceDescriptionChunk::parse`.
    unfoldable pub parse_chunk : B → Result (SourceDescriptionChunk × B)
    unfolding parse_items
    parse_chunk b = do
      (source, b) ← try_get buf 4 b
      (items, b) ← settled (parse_items (suc (remaining buf b)) b)
      ok (record { src = source; sdes_items = items }, b)

    unfoldable pub parse_source_description : RtcpHeader → B → Result (RtcpPacketKind × B)
    unfolding times parse_chunk
    parse_source_description h b = do (chunks, b) ← times parse_chunk h.count b; ok (sdes chunks, b)

    -- The reason, if a byte is left for its length.
    unfoldable pub reason_of : Option (Text × B) → B → Result (Option Text × B)
    unfolding read_string
    reason_of none b = ok (none, b)
    reason_of (some (bytes, after)) b = do
      (reason, b) ← read_string (big_endian 0 bytes) after
      ok (some reason, b)

    unfoldable pub parse_good_bye : RtcpHeader → B → Result (RtcpPacketKind × B)
    unfolding get_u32s reason_of
    parse_good_bye h b = do
      (sources, b) ← get_u32s buf h.count b
      (reason, b) ← reason_of (read 1 b) b
      ok (bye (record { src_list = sources; reason_for_leaving = reason }), b)

    -- The `match` on the type of a packet.
    unfoldable pub parse_kind : RtcpHeader → B → Result (RtcpPacketKind × B)
    unfolding parse_sender_report parse_receiver_report parse_source_description parse_good_bye
        parse_application_defined
    parse_kind h b =
        if h.packet_type == 200
        then parse_sender_report h b
        else if h.packet_type == 201
        then parse_receiver_report h b
        else if h.packet_type == 202
        then parse_source_description h b
        else if h.packet_type == 203
        then parse_good_bye h b
        else if h.packet_type == 204
        then parse_application_defined h b
        else err io

    -- `RtcpPacket::parse`.
    unfoldable pub parse_rtcp : B → Result (RtcpPacket × B)
    unfolding parse_header parse_kind
    parse_rtcp b = do
      (h, b) ← parse_header b
      (kind, b) ← parse_kind h b
      ok (record { header = h; packet_kind = kind }, b)

    -- `RtcpCompoundPacket::parse`: `none` where the fuel ends before the loop.
    unfoldable pub parse_compound : ℕ → B → Option (Result (List RtcpPacket × B))
    unfolding parse_rtcp
    parse_compound zero b = none
    parse_compound (suc fuel) b = elim (remaining buf b == 0) [
      | true ↦ some (ok ([], b))
      | false ↦ next (parse_rtcp b) (λ (p, b). pushed p (parse_compound fuel b))
    ]
