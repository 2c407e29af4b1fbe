-- ===== src/Media/Sdp/RoundTrip/Fields.antt =====
-- rssip-media/src/sdp/parser.rs: each line that is printed reads back, up to the end of its line.
use rssip.Prelude.{
  ℕ, ◌-◌, ◌^◌, ◌≤◌, refl, Bool, not, ◌==◌, Text, [], ◌∷◌, ◌++◌, Option, none, some, All-map,
  decimal,
}
use rssip.Scanner.{Scanner, Scanned, done}
use rssip.Scanner.Prefixes.{Stops}
use rssip.Scanner.Reading.{
  Yields, At, Gives, scan_while-At, scan_while_as_str-At, scan_number-At, scan_if-At, scan_if-Stops,
  must_read-At,
}
use rssip.Scanner.Strings.{read_behind, is_newline, scan_line}
use rssip.Media.Sdp.{Attribute}
use rssip.Media.Sdp.Printing.{value_text}
use rssip.Media.Sdp.Printable.{IsLine, IsAttribute, IfSome}
use rssip.Media.Sdp.Keywords.{is_token}
use rssip.Media.Sdp.Parsing.{scanned, read_line, parse_attribute, parse_time}

-- The end of a line.
abbrev pub eol : Text → Text
eol after = 13 ∷ 10 ∷ after

pub scanned-Yields {ℓ} :
    {A : Type ℓ} (outcome : Scanned A × Scanner) (a : A) (after : Text)
    → Gives outcome (done a) after
    → Yields (scanned outcome) a after
scanned-Yields outcome a after (s, e, h) = (s, rw e refl, h)

pub read_line-Yields :
    (is_utf8 : Text → Bool) (t after : Text) (s : Scanner)
    → At s (t ++ eol after)
    → IsLine is_utf8 t
    → Yields (read_line is_utf8 s) t (eol after)
read_line-Yields is_utf8 t after s h (no_break, utf8) =
    scanned-Yields (scan_line is_utf8 s) t (eol after) (
      scan_while_as_str-At is_utf8 (λ b. not (is_newline b)) t (eol after) s h
        (All-map t (λ c h. rw h refl) no_break) refl utf8)

value-Yields :
    (is_utf8 : Text → Bool) (v : Option Text) (after : Text) (s : Scanner)
    → At s (value_text v ++ eol after)
    → IfSome (IsLine is_utf8) v
    → Yields (read_behind b':' (read_line is_utf8) s) v (eol after)
unfolding value_text read_behind
value-Yields is_utf8 none after s h line =
    (s, rw (scan_if-Stops (λ b. b == b':') (eol after) s h refl) refl, h)
value-Yields is_utf8 (some v) after s h line =
    let (s1, e1, h1) = scan_if-At (λ b. b == b':') b':' (v ++ eol after) s h refl in
    let (s2, e2, h2) = read_line-Yields is_utf8 v after s1 h1 line in (s2, rw (e1, e2) refl, h2)

value-Stops : (v : Option Text) (after : Text) → Stops (λ b. is_token b) (value_text v ++ eol after)
unfolding value_text is_token
value-Stops none after = refl
value-Stops (some v) after = refl

pub parse_attribute-Yields :
    (is_utf8 : Text → Bool) (a : Attribute) (after : Text) (s : Scanner)
    → At s (a.name ++ (value_text a.value ++ eol after))
    → IsAttribute is_utf8 a
    → Yields (parse_attribute is_utf8 s) a (eol after)
unfolding parse_attribute
parse_attribute-Yields is_utf8 a after s h is =
    let (s1, e1, h1) =
      scan_while-At (λ b. is_token b) a.name (value_text a.value ++ eol after) s h is.label
        (value-Stops a.value after) in
    let (s2, e2, h2) = value-Yields is_utf8 a.value after s1 h1 is.value in
    (s2, rw (e1, e2) refl, h2)

pub parse_time-Yields :
    (start stop : ℕ) (after : Text) (s : Scanner)
    → At s (decimal start ++ (32 ∷ decimal stop ++ eol after))
    → start ≤ 2 ^ 64 - 1
    → stop ≤ 2 ^ 64 - 1
    → Yields
        (parse_time s)
        (record {
          time_active = record { start_time = start; stop_time = stop };
          repeat_times = [];
        })
        (eol after)
unfolding parse_time
parse_time-Yields start stop after s h fits fits' =
    let (s1, e1, h1) =
      scan_number-At (2 ^ 64 - 1) start (32 ∷ decimal stop ++ eol after) s h refl fits in
    let (s2, e2, h2) = must_read-At 32 (decimal stop ++ eol after) s1 h1 in
    let (s3, e3, h3) = scan_number-At (2 ^ 64 - 1) stop (eol after) s2 h2 refl fits' in
    (s3, rw (e1, e2, e3) refl, h3)
