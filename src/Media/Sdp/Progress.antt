-- ===== src/Media/Sdp/Progress.antt =====
-- rssip-media/src/sdp/parser.rs: the parsers only move forward, and the loops end.
use rssip.Prelude.{
  ℕ, zero, suc, ◌-◌, ◌<◌, ◌≡◌, inl, inr, ap, Bool, not, ◌==◌, ◌^◌, codes, Text, Option, none, some,
  length, arith, Bool-cases,
}
use rssip.Error.{Result, ok, ◌>>=◌, Ensures, Ensures-bind}
use rssip.Scanner.Forward.{Forward, chain, read_behind-Forward}
use rssip.Media.Error.{ParseSdpError, syntax_error}
use rssip.Scanner.{Scanner, peek, bump, remaining, matches_prefix, scan_number, must_read}
use rssip.Scanner.Consumed.{rest}
use rssip.Scanner.Positions.{remaining-rest}
use rssip.Scanner.Strings.{scan_while_as_str, is_space, is_newline, is_whitespace}
use rssip.Scanner.Within.{
  Within, Leaves, scan_while-Within, advance_n-Within, scan_number-Leaves, must_read-Leaves,
  scan_while_as_str-Leaves, scan_if-Within, Leaves-le,
}
use rssip.Media.Sdp.{IpAddr}
use rssip.Media.Sdp.Keywords.{is_token}
use rssip.Media.Sdp.Parsing.{
  ok_or, read_spaced, spaced_items, at_line_end, read_line, parse_media_description, parse_time,
  parse_repeat_times, parse_bandwidth, parse_attribute, parse_net, parse_origin, scanned, handle_ws,
  read_token, parse_offset, parse_connection_info,
}

pub ok_or-Ensures {ℓ} :
    {A : Type ℓ} (e : ParseSdpError) (o : Option A) → Ensures (λ _. Unit) (ok_or e o)
ok_or-Ensures e none = tt
ok_or-Ensures e (some a) = tt

abbrev chosen {ℓ κ} :
    {A : Type ℓ} {B : Type κ} (n : ℕ) (e : ParseSdpError) (o : Option A)
    (f : A → Result (B × Scanner))
    → ((a : A) → Leaves n (f a))
    → Leaves n (ok_or e o >>= f)
chosen n e o f later =
    Ensures-bind (λ _. Unit) (λ (b, s). Within n s) (ok_or e o) f (ok_or-Ensures e o)
      (λ a _. later a)

read_spaced-Leaves {ℓ} :
    {A : Type ℓ} (read : Scanner → Result (A × Scanner)) (fuel n : ℕ) (s : Scanner)
    → Forward read
    → n < fuel
    → Within n s
    → Leaves n (read_spaced read fuel s)
unfolding read_spaced
read_spaced-Leaves read zero n s forward enough w = absurd (omega arith)
read_spaced-Leaves read (suc fuel) n s forward enough w = elim (scan_if-Within is_space n s w) [
  | inl none_left ↦ rw (read_spaced, none_left) w
  | inr (c, found, some_left, w) ↦
      rw (read_spaced, found)
        (Leaves-le (n - 1) n _ (omega arith) (
          chain (n - 1) (read (bump c s)) _ (forward (n - 1) (bump c s) w) λ (a, s) w.
            elim (Bool-cases (at_line_end (peek s))) [
              | inl end ↦ rw end w
              | inr more ↦ rw more (
                  chain (n - 1) (read_spaced read fuel s) _
                    (read_spaced-Leaves read fuel (n - 1) s forward (omega arith) w) (λ r w. w))
            ]))
]

spaced_items-Forward {ℓ} :
    {A : Type ℓ} (read : Scanner → Result (A × Scanner))
    → Forward read
    → Forward (spaced_items read)
unfolding spaced_items
spaced_items-Forward read forward n s w =
    let left : length (remaining s) ≡ length (rest s) =
      ap (λ (t : Text). length t) (remaining-rest s w.0) in
    Leaves-le (length (rest s)) n (spaced_items read s) w.1 (
      read_spaced-Leaves read (suc (length (remaining s))) (length (rest s)) s forward
        (omega (arith, left)) (w.0, omega arith))

number-Forward : (limit : ℕ) → Forward (λ s. scanned (scan_number limit s))
number-Forward limit n s w = scan_number-Leaves _ limit n s w

byte-Forward : (c : ℕ) → Forward (λ s. scanned (must_read c s))
byte-Forward c n s w = must_read-Leaves _ c n s w

handle_ws-Within : (n : ℕ) (s : Scanner) → Within n s → Within n (handle_ws s)
handle_ws-Within = scan_while-Within is_space

pub parse_media_description-Forward : Forward parse_media_description
unfolding parse_media_description
parse_media_description-Forward n s w = chosen n _ _ _ λ media_type.
    chain n _ _
      (number-Forward (2 ^ 16 - 1) n _
        (handle_ws-Within n _ (scan_while-Within (λ b. is_token b) n s w)))
      λ (port, s) w. chosen n _ _ _ λ proto.
        chain n _ _
          (spaced_items-Forward (λ s. ok (read_token s)) (scan_while-Within (λ b. is_token b)) n _
            (scan_while-Within (λ b. not (is_space b)) n _ (handle_ws-Within n s w)))
          (λ r w. w)

pub parse_time-Forward : Forward parse_time
unfolding parse_time
parse_time-Forward n s w = chain n _ _ (number-Forward (2 ^ 64 - 1) n s w) λ (start, s) w.
    chain n _ _ (byte-Forward b' ' n s w)
      λ (_, s) w. chain n _ _ (number-Forward (2 ^ 64 - 1) n s w) (λ r w. w)

pub parse_repeat_times-Forward : Forward parse_repeat_times
unfolding parse_repeat_times
parse_repeat_times-Forward n s w =
    chain n _ _ (number-Forward (2 ^ 63 - 1) n s w) λ (interval, s) w.
      chain n _ _ (number-Forward (2 ^ 63 - 1) n _ (handle_ws-Within n s w)) λ (duration, s) w.
        chain n _ _
          (spaced_items-Forward parse_offset
            (λ n s w. chain n _ _ (number-Forward (2 ^ 63 - 1) n s w) (λ r w. w)) n s w)
          (λ r w. w)

module _ (is_utf8 : Text → Bool) where
  pub str-Forward : (p : ℕ → Bool) → Forward (λ s. scanned (scan_while_as_str is_utf8 p s))
  str-Forward p n s w = scan_while_as_str-Leaves is_utf8 _ p n s w

  pub parse_bandwidth-Forward : Forward (parse_bandwidth is_utf8)
  unfolding parse_bandwidth
  parse_bandwidth-Forward n s w =
      chain n _ _ (str-Forward (λ b. not (b == b':')) n s w)
        λ (bwtype, s) w. chain n _ _ (number-Forward (2 ^ 64 - 1) n s w) (λ r w. w)

  pub parse_attribute-Forward : Forward (parse_attribute is_utf8)
  unfolding parse_attribute
  parse_attribute-Forward n s w =
      chain n _ _
        (read_behind-Forward b':' (read_line is_utf8) (str-Forward (λ b. not (is_newline b))) n _
          (scan_while-Within (λ b. is_token b) n s w))
        (λ r w. w)

  pub parse_net-Forward : Forward (parse_net is_utf8)
  parse_net-Forward n s w = elim (Bool-cases (matches_prefix (codes "IN") s)) [
    | inl short ↦ rw short (advance_n-Within 2 n s w)
    | inr other ↦ rw other (chain n _ _ (str-Forward (λ b. not (is_space b)) n s w) (λ r w. w))
  ]

  module _ (parse_ip : Text → Option IpAddr) where
    pub parse_origin-Forward : Forward (parse_origin is_utf8 parse_ip)
    unfolding parse_origin
    parse_origin-Forward n s w =
        chain n _ _ (str-Forward (λ b. not (is_whitespace b)) n s w) λ (user, s) w.
          chain n _ _ (number-Forward (2 ^ 64 - 1) n _ (handle_ws-Within n s w)) λ (id, s) w.
            chain n _ _ (number-Forward (2 ^ 64 - 1) n _ (handle_ws-Within n s w)) λ (v, s) w.
              chain n _ _ (str-Forward (λ b. not (b == 32)) n _ (handle_ws-Within n s w))
                λ (net, s) w.
                  chain n _ _ (str-Forward (λ b. not (b == 32)) n _ (handle_ws-Within n s w))
                    λ (addr, s) w. chosen n _ _ _ λ addrtype.
                      chain n _ _ (str-Forward _ n _ (handle_ws-Within n s w)) λ (address, s) w.
                        chosen n syntax_error (parse_ip address) _ λ ip. handle_ws-Within n s w

    pub parse_connection_info-Forward : Forward (parse_connection_info is_utf8 parse_ip)
    unfolding parse_connection_info
    parse_connection_info-Forward n s w = chain n _ _ (parse_net-Forward n s w) λ (net, s) w.
        chosen n _ _ _ λ addrtype.
          chain n _ _
            (str-Forward (λ b. not (is_newline b)) n _
              (handle_ws-Within n _ (advance_n-Within 3 n _ (handle_ws-Within n s w))))
            λ (address, s) w.
              chosen n syntax_error (parse_ip address) _ λ ip. handle_ws-Within n s w
