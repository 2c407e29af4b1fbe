-- ===== src/Media/Sdp/Bandwidth.antt =====
-- rssip-media/src/sdp/parser.rs: `parse_bandwidth` stops in front of the colon and reads the number
-- there.
use rssip.Prelude.{
  ℕ, ◌≡◌, refl, inl, inr, ◌-◌, ◌^◌, length, Bool, not, ◌==◌, Text, [], ◌∷◌, is_digit, Bool-cases,
  arith,
}
use rssip.Error.{err}
use rssip.Media.Error.{scanner_error}
use rssip.Scanner.{Scanner, scan_while}
use rssip.Scanner.Consumed.{rest}
use rssip.Scanner.Positions.{IsValid}
use rssip.Scanner.Prefixes.{Stops, scan_while-peek_while}
use rssip.Scanner.Reading.{scan_number-fails}
use rssip.Scanner.Strings.{scan_while_as_str}
use rssip.Scanner.Within.{scan_while-Within}
use rssip.Media.Sdp.Parsing.{sdp_error, parse_bandwidth}

abbrev no_colon : ℕ → Bool
no_colon b = not (b == b':')

no_colon-Stops : (text : Text) → Stops no_colon text → Stops (λ c. is_digit c) text
no_colon-Stops [] stops = tt
no_colon-Stops (c ∷ text) stops = ground (arith, stops)

-- From a valid scanner `parse_bandwidth` fails whatever comes next: no b= line is accepted.
pub parse_bandwidth_fails :
    (is_utf8 : Text → Bool) (s : Scanner)
    → IsValid s
    → parse_bandwidth is_utf8 s ≡ err (sdp_error scanner_error)
unfolding parse_bandwidth scan_while_as_str
parse_bandwidth_fails is_utf8 s v =
    let (_, _, _, stops) = scan_while-peek_while no_colon s v in
    let (bytes, s1) = scan_while no_colon s in
    let (w, _) = scan_while-Within no_colon (length (rest s)) s (v, omega arith) in
    elim (Bool-cases (is_utf8 bytes)) [
      | inl fits ↦
          rw
            (
              fits,
              scan_number-fails (2 ^ 64 - 1) (rest s1) s1 (sdp_error scanner_error) (w, refl)
                  (no_colon-Stops (rest s1) stops),
            )
            refl
      | inr other ↦ rw other refl
    ]
