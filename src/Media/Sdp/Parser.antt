-- ===== src/Media/Sdp/Parser.antt =====
-- rssip-media/src/sdp/parser.rs: `parse_sdp`, the loop over the lines. `local_ip` is the address of
-- the default origin, `utils::local_ip::get_local_ip_addr()`.
use rssip.Prelude.{
  ℕ, zero, suc, Bool, true, false, ◌==◌, Text, [], Option, none, length, if◌then◌else◌,
}
use rssip.Error.{Result, ok, panic, ◌>>=◌}
use rssip.Scanner.{Scanner, new, is_eof}
use rssip.Media.Sdp.{ip4, in_net, IpAddr, Origin, SessionDescription}
use rssip.Media.Sdp.Setters.{
  set_origin, set_name, set_information, set_email_addr, set_uri, set_attr,
  set_bandwidth_information, set_media_description, set_time_desc, set_repeat_times, set_phone,
  set_connection,
}
use rssip.Media.Sdp.Parsing.{
  read_field, read_line, handle_new_line, parse_version, parse_origin, parse_connection_info,
  parse_media_description, parse_time, parse_repeat_times, parse_bandwidth, parse_attribute,
}

abbrev default_origin : IpAddr → Origin
default_origin local_ip = record {
  user = [];
  session_id = 0;
  session_version = 0;
  nettype = in_net;
  addrtype = ip4;
  unicast_address = local_ip;
}

unfoldable pub default_session : IpAddr → SessionDescription
default_session local_ip = record {
  origin = default_origin local_ip;
  session_name = [];
  session_information = none;
  uri = none;
  email_address = none;
  phone_number = none;
  connection_information = none;
  bandwidth_information = [];
  attributes = [];
  time = [];
  media = [];
}

-- What a parser reads goes into the description by a setter.
abbrev pub setting {ℓ} :
    {A : Type ℓ}
    → (A → SessionDescription → SessionDescription)
    → SessionDescription
    → Result (A × Scanner)
    → Result (SessionDescription × Scanner)
setting set d m = m >>= (λ (a, s). ok (set a d, s))

module _ (is_utf8 : Text → Bool) (parse_ip : Text → Option IpAddr) where
  -- The `match` on the field.
  unfoldable pub parse_field :
      ℕ → SessionDescription → Scanner → Result (SessionDescription × Scanner)
  unfolding parse_attribute parse_version parse_origin parse_connection_info parse_bandwidth
      parse_time parse_repeat_times parse_media_description
  parse_field field d s =
      if field == b'a'
      then setting set_attr d (parse_attribute is_utf8 s)
      else if field == b'v'
      then setting (λ _ d. d) d (parse_version s)
      else if field == b'o'
      then setting set_origin d (parse_origin is_utf8 parse_ip s)
      else if field == b's'
      then setting set_name d (read_line is_utf8 s)
      else if field == b'c'
      then setting set_connection d (parse_connection_info is_utf8 parse_ip s)
      else if field == b'i'
      then setting set_information d (read_line is_utf8 s)
      else if field == b'u'
      then setting set_uri d (read_line is_utf8 s)
      else if field == b'e'
      then setting set_email_addr d (read_line is_utf8 s)
      else if field == b'p'
      then setting set_phone d (read_line is_utf8 s)
      else if field == b'b'
      then setting set_bandwidth_information d (parse_bandwidth is_utf8 s)
      else if field == b't'
      then setting set_time_desc d (parse_time s)
      else if field == b'r'
      then (do (r, s) ← parse_repeat_times s; d ← set_repeat_times r d; ok (d, s))
      else if field == b'm'
      then setting set_media_description d (parse_media_description s)
      else ok (d, s)

  -- One turn of the loop.
  unfoldable pub parse_line : SessionDescription → Scanner → Result (SessionDescription × Scanner)
  unfolding read_field parse_field
  parse_line d s = do
    (field, s) ← read_field s
    (d, s) ← parse_field field d s
    ok (d, handle_new_line s)

  -- `while !self.is_eof()`.
  unfoldable pub parse_lines : ℕ → SessionDescription → Scanner → Result SessionDescription
  unfolding parse_line is_eof
  parse_lines zero d s = panic
  parse_lines (suc fuel) d s = elim (is_eof s) [
    | true ↦ ok d
    | false ↦ parse_line d s >>= λ (d, s). parse_lines fuel d s
  ]

  -- `SdpParser::parse`, with a unit of fuel for every byte.
  unfoldable pub parse : IpAddr → Text → Result SessionDescription
  unfolding parse_lines new default_session
  parse local_ip buf = parse_lines (suc (length buf)) (default_session local_ip) (new buf)
