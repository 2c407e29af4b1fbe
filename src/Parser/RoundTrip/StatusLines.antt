-- ===== src/Parser/RoundTrip/StatusLines.antt =====
-- The status line is printed and parsed.
use mathlib.Core.List.{append_assoc}
use rssip.Prelude.{
  ◌≡◌, refl, ◌∙◌, Bool, true, false, not, Text, codes, [], ◌∷◌, ◌++◌, some, All, ◌==◌, is_digit,
  decimal, decimal-IsDigits, arith, All-map,
}
use rssip.Scanner.{Scanner, done, bump, must_scan_slice, scan_zip}
use rssip.Scanner.Prefixes.{Stops}
use rssip.Scanner.Strings.{is_space, is_newline}
use rssip.Scanner.Reading.{At, Gives, Yields, bump-At, scan_while-At, scan_while_as_str-At}
use rssip.Message.StatusCode.{StatusCode, try_from, as_u16}
use rssip.Parser.Bytes.{skip_ws, skip_newline}
use rssip.Parser.StartLines.{
  StatusLine, parse_sip_version, parse_status_code, parse_status_line, show_status_line,
}

scan_zip-At :
    (xs after : Text) (s : Scanner)
    → At s (xs ++ after)
    → Gives (scan_zip (xs ++ after) xs s) (done tt) after
unfolding scan_zip
scan_zip-At [] [] s h = (s, refl, h)
scan_zip-At [] (c ∷ after) s h = (s, refl, h)
scan_zip-At (c ∷ xs) after s h =
    let (s', e, behind) = scan_zip-At xs after (bump c s) (bump-At c (xs ++ after) s h) in
    let same : (c == c) ≡ true = ground arith in (s', rw same e, behind)

must_scan_slice-At :
    (xs after : Text) (s : Scanner)
    → At s (xs ++ after)
    → Gives (must_scan_slice xs s) (done tt) after
unfolding must_scan_slice
must_scan_slice-At xs after s h = rw h.1 (scan_zip-At xs after s h)

code_again : (c : StatusCode) → try_from (decimal (as_u16 c)) ≡ some c
unfolding try_from as_u16 decimal
code_again StatusCode.trying = refl
code_again _ = refl

code_no_space : (c : StatusCode) (t : Text) → Stops is_space (decimal (as_u16 c) ++ t)
unfolding as_u16 decimal
code_no_space StatusCode.trying t = refl
code_no_space _ t = refl

skip_blank-At : (t : Text) (s : Scanner) → At s (32 ∷ t) → Stops is_space t → At (skip_ws s) t
skip_blank-At t s h stops =
    let (s', e, behind) = scan_while-At is_space (32 ∷ []) t s h (refl, tt) stops in
    rw (skip_ws, e) behind

skip_newline-At :
    (t : Text) (s : Scanner) → At s (13 ∷ 10 ∷ t) → Stops is_newline t → At (skip_newline s) t
skip_newline-At t s h stops =
    let (s', e, behind) = scan_while-At is_newline (13 ∷ 10 ∷ []) t s h (refl, (refl, tt)) stops in
    rw (skip_newline, e) behind

parse_status_code-Yields :
    (c : StatusCode) (after : Text) (s : Scanner)
    → At s (32 ∷ (decimal (as_u16 c) ++ (32 ∷ after)))
    → Stops is_space after
    → Yields (parse_status_code s) c after
unfolding parse_status_code
parse_status_code-Yields c after s h stops =
    let start = skip_blank-At _ s h (code_no_space c (32 ∷ after)) in
    let (s1, e1, h1) =
      scan_while-At (λ b. is_digit b) (decimal (as_u16 c)) (32 ∷ after) (skip_ws s) start
        (decimal-IsDigits (as_u16 c)) refl in
    (skip_ws s1, rw (e1, code_again c) refl, skip_blank-At after s1 h1 stops)

reason_front :
    (reason after : Text) → Stops is_space reason → Stops is_space (reason ++ (13 ∷ after))
reason_front [] after h = refl
reason_front (c ∷ reason) after h = h

module _ (is_utf8 : Text → Bool) where
  -- A status line that is printed, with any code and a reason phrase on one line that starts with no
  -- blank, is parsed as itself: the parser stands in front of what follows the line, if that does not
  -- start with a line end.
  pub parse_status_line-show_status_line :
      (l : StatusLine) (after : Text) (s : Scanner)
      → At s (show_status_line l ++ after)
      → All (λ c. is_newline c ≡ false) l.reason
      → Stops is_space l.reason
      → is_utf8 l.reason ≡ true
      → Stops is_newline after
      → Yields (parse_status_line is_utf8 s) l after
  unfolding parse_status_line parse_sip_version show_status_line
  parse_status_line-show_status_line l after s h one_line no_space utf8 stops =
      let digits = decimal (as_u16 l.code) in
      let whole : show_status_line l ++ after
          ≡ codes "SIP/2.0" ++ (32 ∷ (digits ++ (32 ∷ (l.reason ++ (13 ∷ 10 ∷ after))))) =
        simp append_assoc in
      let (s1, e1, h1) = must_scan_slice-At (codes "SIP/2.0") _ s (h.0, h.1 ∙ whole) in
      let (s2, e2, h2) =
        parse_status_code-Yields l.code (l.reason ++ (13 ∷ 10 ∷ after)) s1 h1
          (reason_front l.reason (10 ∷ after) no_space) in
      let (s3, e3, h3) =
        scan_while_as_str-At is_utf8 (λ b. not (is_newline b)) l.reason (13 ∷ 10 ∷ after) s2 h2
          (All-map l.reason (λ c e. ground (arith, e)) one_line) refl utf8 in
      (skip_newline s3, rw (e1, e2, e3) refl, skip_newline-At after s3 h3 stops)
