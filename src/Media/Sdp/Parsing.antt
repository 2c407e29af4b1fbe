-- ===== src/Media/Sdp/Parsing.antt =====
-- rssip-media/src/sdp/parser.rs: the parser of session descriptions. `is_utf8` is the check of
-- `std::str::from_utf8`, `parse_ip` is `str::parse::<IpAddr>`. A loop that runs out of fuel counts
-- as a panic here.
use rssip.Prelude.{
  ℕ, zero, suc, Bool, true, false, not, Text, codes, List, [], ◌∷◌, Option, none, some, length,
  if◌then◌else◌,
}
use rssip.Error.{Error, media_error, Result, ok, err, panic, ◌>>=◌}
use rssip.Media.Error.{
  parse_sdp_error, ParseSdpError, sdp_invalid_protocol_version, sdp_unknow_media_type,
  sdp_unknow_addr_type, sdp_unknow_transport, scanner_error, syntax_error,
}
use rssip.Scanner.{
  Scanner, Scanned, remaining, peek, next_byte, advance_n, peek_n, matches_prefix, scan_while,
  scan_if, must_read, scan_u16, scan_u32, scan_u64, scan_i64,
}
use rssip.Scanner.Strings.{
  read_behind, if_read, is_space, is_newline, is_whitespace, scan_while_as_str, scan_until_as_str,
  scan_until_any_as_str, scan_line, or_err,
}
use rssip.Media.Sdp.{
  AddrType, NetType, in_net, other_net, IpAddr, ConnectionInformation, BandwidthInformation,
  Attribute, Origin, ℤ, pos, RepeatTimes, TimeDescription, MediaDescription, RtpMap,
}
use rssip.Media.Sdp.Keywords.{
  is_token, media_type_of, transport_of, addr_type_of, net_type_of, bwtype_of,
}

abbrev pub sdp_error : ParseSdpError → Error
sdp_error e = media_error (parse_sdp_error e)

-- `?` on an outcome of the scanner.
abbrev pub scanned {ℓ} : {A : Type ℓ} → Scanned A × Scanner → Result (A × Scanner)
scanned = or_err (sdp_error scanner_error)

-- An `Option` whose `None` is an early return.
abbrev pub ok_or {ℓ} : {A : Type ℓ} → ParseSdpError → Option A → Result A
ok_or e none = err (sdp_error e)
ok_or e (some a) = ok a

abbrev pub handle_ws : Scanner → Scanner
handle_ws s = (scan_while is_space s).1

abbrev pub handle_new_line : Scanner → Scanner
handle_new_line s = (scan_while is_newline s).1

abbrev pub read_token : Scanner → Text × Scanner
read_token = scan_while (λ b. is_token b)

unfoldable pub read_field : Scanner → Result (ℕ × Scanner)
read_field s = do
  (field, s) ← scanned (next_byte s)
  (_, s) ← scanned (must_read b'=' s)
  ok (field, s)

unfoldable pub parse_version : Scanner → Result (Unit {0} × Scanner)
parse_version s = or_err (sdp_error sdp_invalid_protocol_version) (must_read b'0' s)

-- `matches!(peek(), Some(b'\r') | Some(b'\n') | None)`.
abbrev pub at_line_end : Option ℕ → Bool
at_line_end none = true
at_line_end (some c) = is_newline c

-- The end of a turn: the `break`, or the rest of the loop.
abbrev pub behind_item {ℓ} :
    {A : Type ℓ}
    → Bool
    → A
    → (Scanner → Result (List A × Scanner))
    → Scanner
    → Result (List A × Scanner)
behind_item true a more s = ok (a ∷ [], s)
behind_item false a more s = more s >>= λ (rest, s). ok (a ∷ rest, s)

-- The loops that push what stands behind each space, up to the end of the line.
unfoldable pub read_spaced {ℓ} :
    {A : Type ℓ} → (Scanner → Result (A × Scanner)) → ℕ → Scanner → Result (List A × Scanner)
read_spaced read zero s = panic
read_spaced read (suc fuel) s =
    if_read (scan_if is_space s) (λ s. ok ([], s))
      λ s.
        read s >>= λ (a, s). behind_item (at_line_end (peek s)) a (λ s. read_spaced read fuel s) s

unfoldable pub spaced_items {ℓ} :
    {A : Type ℓ} → (Scanner → Result (A × Scanner)) → Scanner → Result (List A × Scanner)
unfolding read_spaced
spaced_items read s = read_spaced read (suc (length (remaining s))) s

unfoldable pub parse_media_description : Scanner → Result (MediaDescription × Scanner)
unfolding spaced_items
parse_media_description s = do
  let (token, s) = read_token s
  media_type ← ok_or sdp_unknow_media_type (media_type_of token)
  (port, s) ← scanned (scan_u16 (handle_ws s))
  let (bytes, s) = scan_while (λ b. not (is_space b)) (handle_ws s)
  proto ← ok_or sdp_unknow_transport (transport_of bytes)
  (formats, s) ← spaced_items (λ s. ok (read_token s)) s
  ok (
    record {
      media_type = media_type;
      proto = proto;
      port = port;
      number_of_ports = none;
      media_formats = formats;
      title = none;
      connection_information = none;
      bandwidth_information = [];
      attributes = [];
    },
    s,
  )

unfoldable pub parse_time : Scanner → Result (TimeDescription × Scanner)
parse_time s = do
  (start, s) ← scanned (scan_u64 s)
  (_, s) ← scanned (must_read b' ' s)
  (stop, s) ← scanned (scan_u64 s)
  ok (
    record { time_active = record { start_time = start; stop_time = stop }; repeat_times = [] },
    s,
  )

-- What a turn of the loop of `parse_repeat_times` reads.
abbrev pub parse_offset : Scanner → Result (ℤ × Scanner)
parse_offset s = do (n, s) ← scanned (scan_i64 s); ok (pos n, s)

unfoldable pub parse_repeat_times : Scanner → Result (RepeatTimes × Scanner)
unfolding spaced_items
parse_repeat_times s = do
  (interval, s) ← scanned (scan_i64 s)
  (duration, s) ← scanned (scan_i64 (handle_ws s))
  (offsets, s) ← spaced_items parse_offset s
  ok (
    record { repeat_interval = pos interval; active_duration = pos duration; offsets = offsets },
    s,
  )

unfoldable pub parse_rtpmap : Scanner → Result (RtpMap × Scanner)
unfolding read_behind
parse_rtpmap s = do
  let (payload_type, s) = read_token s
  let (enc_name, s) = read_token (handle_ws s)
  (_, s) ← scanned (must_read b'/' s)
  (clock_rate, s) ← scanned (scan_u32 s)
  (param, s) ← read_behind b'/' (λ s. ok (read_token s)) s
  ok (
    record {
      payload_type = payload_type;
      enc_name = enc_name;
      clock_rate = clock_rate;
      param = param;
    },
    handle_new_line s,
  )

abbrev pub addr_peeked : Option Text → Option AddrType
addr_peeked none = none
addr_peeked (some t) = addr_type_of t

module _ (is_utf8 : Text → Bool) where
  abbrev pub read_line : Scanner → Result (Text × Scanner)
  read_line s = scanned (scan_line is_utf8 s)

  unfoldable pub parse_bandwidth : Scanner → Result (BandwidthInformation × Scanner)
  unfolding bwtype_of
  parse_bandwidth s = do
    (bwtype, s) ← scanned (scan_until_as_str is_utf8 b':' s)
    (bandwidth, s) ← scanned (scan_u64 s)
    ok (record { bwtype = bwtype_of bwtype; bandwidth = bandwidth }, s)

  unfoldable pub parse_attribute : Scanner → Result (Attribute × Scanner)
  unfolding read_behind
  parse_attribute s = do
    let (label, s) = read_token s
    (value, s) ← read_behind b':' read_line s
    ok (record { name = label; value = value }, s)

  abbrev pub parse_net : Scanner → Result (NetType × Scanner)
  parse_net s = if matches_prefix (codes "IN") s then ok (in_net, advance_n 2 s) else (do
    (other, s) ← scanned (scan_while_as_str is_utf8 (λ b. not (is_space b)) s)
    ok (other_net other, s))

  module _ (parse_ip : Text → Option IpAddr) where
    unfoldable pub parse_origin : Scanner → Result (Origin × Scanner)
    parse_origin s = do
      (user, s) ← scanned (scan_while_as_str is_utf8 (λ b. not (is_whitespace b)) s)
      (session_id, s) ← scanned (scan_u64 (handle_ws s))
      (session_version, s) ← scanned (scan_u64 (handle_ws s))
      (nettype, s) ← scanned (scan_until_as_str is_utf8 b' ' (handle_ws s))
      (addr, s) ← scanned (scan_until_as_str is_utf8 b' ' (handle_ws s))
      addrtype ← ok_or sdp_unknow_addr_type (addr_type_of addr)
      (address, s) ← scanned (scan_until_any_as_str is_utf8 (32 ∷ 9 ∷ 13 ∷ 10 ∷ []) (handle_ws s))
      ip ← ok_or syntax_error (parse_ip address)
      ok (
        record {
          user = user;
          session_id = session_id;
          session_version = session_version;
          nettype = net_type_of nettype;
          addrtype = addrtype;
          unicast_address = ip;
        },
        handle_ws s,
      )

    unfoldable pub parse_connection_info : Scanner → Result (ConnectionInformation × Scanner)
    parse_connection_info s = do
      (nettype, s) ← parse_net s
      let s = handle_ws s
      addrtype ← ok_or syntax_error (addr_peeked (peek_n 3 s))
      (address, s) ← read_line (handle_ws (advance_n 3 s))
      ip ← ok_or syntax_error (parse_ip address)
      ok (record { nettype = nettype; addrtype = addrtype; conection_address = ip }, handle_ws s)
