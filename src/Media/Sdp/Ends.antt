-- ===== src/Media/Sdp/Ends.antt =====
-- rssip-media/src/sdp/parser.rs: the loop of `parse_sdp` ends, without a panic.
use mathlib.Core.Path.{subst}
use rssip.Prelude.{
  ℕ, zero, suc, ◌-◌, ◌<◌, ◌≡◌, ◌≢◌, inl, inr, refl, Bool, true, false, not, ◌==◌, Text, Option,
  List, [], ◌∷◌, length, arith, Bool-cases, if◌then◌else◌,
}
use rssip.Error.{Result, panic, Ensures, Ensures-bind}
use rssip.Scanner.{Scanner, new, is_eof}
use rssip.Scanner.Consumed.{rest}
use rssip.Scanner.Reading.{is_eof-At}
use rssip.Scanner.Strings.{is_newline}
use rssip.Scanner.Within.{
  Within, Leaves, new-Within, scan_while-Within, must_read-Leaves, next_byte-Leaves,
}
use rssip.Media.Sdp.{IpAddr, SessionDescription, TimeDescription, RepeatTimes}
use rssip.Media.Sdp.Setters.{
  set_origin, set_name, set_information, set_email_addr, set_uri, set_attr,
  set_bandwidth_information, set_media_description, set_time_desc, set_repeat_times, set_phone,
  set_connection, repeat_at,
}
use rssip.Media.Sdp.Parsing.{read_field, parse_version}
use rssip.Media.Sdp.Parser.{setting, parse_field, parse_line, parse_lines, parse, default_session}
use rssip.Scanner.Forward.{Forward, chain}
use rssip.Media.Sdp.Progress.{
  str-Forward, parse_media_description-Forward, parse_time-Forward, parse_repeat_times-Forward,
  parse_bandwidth-Forward, parse_attribute-Forward, parse_origin-Forward,
  parse_connection_info-Forward,
}

setting-Leaves {ℓ} :
    {A : Type ℓ} (set : A → SessionDescription → SessionDescription) (d : SessionDescription)
    (n : ℕ) (m : Result (A × Scanner))
    → Leaves n m
    → Leaves n (setting set d m)
setting-Leaves set d n m left = chain n m _ left (λ r w. w)

repeat_at-Ensures :
    (time : List TimeDescription) (r : RepeatTimes) (d : SessionDescription)
    → Ensures (λ _. Unit) (repeat_at time r d)
unfolding set_repeat_times
repeat_at-Ensures [] r d = tt
repeat_at-Ensures (t ∷ time) r d = tt

if-Leaves {ℓ} :
    {A : Type ℓ} (b : Bool) (n : ℕ) (x y : Result (A × Scanner))
    → Leaves n x
    → Leaves n y
    → Leaves n (if b then x else y)
if-Leaves true n x y left right = left
if-Leaves false n x y left right = right

module _ (is_utf8 : Text → Bool) (parse_ip : Text → Option IpAddr) where
  parse_field-Leaves :
      (field : ℕ) (d : SessionDescription) → Forward (parse_field is_utf8 parse_ip field d)
  unfolding parse_field parse_version set_repeat_times
  parse_field-Leaves field d n s w =
      let line = str-Forward is_utf8 (λ b. not (is_newline b)) n s w in
      if-Leaves (field == b'a') n _ _
        (setting-Leaves set_attr d n _ (parse_attribute-Forward is_utf8 n s w))
        (if-Leaves (field == b'v') n _ _
          (setting-Leaves (λ _ d. d) d n _ (must_read-Leaves _ b'0' n s w))
          (if-Leaves (field == b'o') n _ _
            (setting-Leaves set_origin d n _ (parse_origin-Forward is_utf8 parse_ip n s w))
            (if-Leaves (field == b's') n _ _ (setting-Leaves set_name d n _ line) (
              if-Leaves (field == b'c') n _ _
                (setting-Leaves set_connection d n _
                  (parse_connection_info-Forward is_utf8 parse_ip n s w))
                (if-Leaves (field == b'i') n _ _ (setting-Leaves set_information d n _ line) (
                  if-Leaves (field == b'u') n _ _ (setting-Leaves set_uri d n _ line) (
                    if-Leaves (field == b'e') n _ _ (setting-Leaves set_email_addr d n _ line) (
                      if-Leaves (field == b'p') n _ _ (setting-Leaves set_phone d n _ line) (
                        if-Leaves (field == b'b') n _ _
                          (setting-Leaves set_bandwidth_information d n _
                            (parse_bandwidth-Forward is_utf8 n s w))
                          (if-Leaves (field == b't') n _ _
                            (setting-Leaves set_time_desc d n _ (parse_time-Forward n s w))
                            (if-Leaves (field == b'r') n _ _
                              (chain n _ _ (parse_repeat_times-Forward n s w) λ (r, s) w.
                                Ensures-bind (λ _. Unit) (λ (d, s). Within n s) _ _
                                  (repeat_at-Ensures d.time r d) λ d _. w)
                              (if-Leaves (field == b'm') n _ _
                                (setting-Leaves set_media_description d n _
                                  (parse_media_description-Forward n s w))
                                w))))))))))))

  parse_line-Leaves :
      (d : SessionDescription) (n : ℕ) (s : Scanner)
      → Within (suc n) s
      → Leaves n (parse_line is_utf8 parse_ip d s)
  unfolding parse_line read_field
  parse_line-Leaves d n s w =
      chain n _ _
        (chain n _ _ (next_byte-Leaves _ n s w)
          λ (field, s) w. chain n _ _ (must_read-Leaves _ b'=' n s w) (λ r w. w))
        λ (field, s) w.
          chain n _ _ (parse_field-Leaves field d n s w)
            λ (d, s) w. scan_while-Within is_newline n s w

  -- On fuel above the number of bytes that are left the loop ends: every turn takes a byte.
  parse_lines-Ensures :
      (fuel n : ℕ) (d : SessionDescription) (s : Scanner)
      → n < fuel
      → Within n s
      → Ensures (λ _. Unit) (parse_lines is_utf8 parse_ip fuel d s)
  unfolding parse_lines
  parse_lines-Ensures zero n d s enough w = absurd (omega arith)
  parse_lines-Ensures (suc fuel) n d s enough w = elim (Bool-cases (is_eof s)) [
    | inl end ↦ rw (parse_lines, end) tt
    | inr more ↦
        let some_left : 0 < n = ground (arith, is_eof-At (rest s) s (w.0, refl), more, w.1) in
        let same : n ≡ suc (n - 1) = omega arith in
        rw (parse_lines, more)
          (Ensures-bind (λ (d, s). Within (n - 1) s) (λ _. Unit) _ _
            (parse_line-Leaves d (n - 1) s (subst (λ k. Within k s) same w))
            λ (d, s) w. parse_lines-Ensures fuel (n - 1) d s (omega arith) w)
  ]

Ensures-ne-panic {ℓ} : {A : Type ℓ} (m : Result A) → Ensures (λ _. Unit) m → m ≢ panic
Ensures-ne-panic m h e = subst (Ensures (λ _. Unit)) e h

-- For every buffer `SdpParser::parse` ends, with a description or an error: none of its loops runs
-- on, and nothing in it panics.
pub parse-ne-panic :
    (is_utf8 : Text → Bool) (parse_ip : Text → Option IpAddr) (local_ip : IpAddr) (buf : Text)
    → parse is_utf8 parse_ip local_ip buf ≢ panic
unfolding parse
parse-ne-panic is_utf8 parse_ip local_ip buf =
    Ensures-ne-panic (parse is_utf8 parse_ip local_ip buf) (
      parse_lines-Ensures is_utf8 parse_ip (suc (length buf)) (length buf)
        (default_session local_ip) (new buf) (omega arith) (new-Within buf))
