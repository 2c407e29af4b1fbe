-- ===== src/Media/Sdp/RoundTrip/Runs.antt =====
-- rssip-media/src/sdp/parser.rs: the turns that the loop of `parse_sdp` takes over printed lines.
use mathlib.Core.List.{append_assoc, append-nil}
use mathlib.Core.Path.{subst}
use rssip.Prelude.{
  ℕ, zero, suc, ◌≡◌, ◌⊎◌, inl, inr, refl, ap, sym, ◌∙◌, Bool, true, false, Text, [], ◌∷◌, ◌++◌,
  Option, length, arith,
}
use rssip.Error.{ok, panic}
use rssip.Scanner.{Scanner, new, is_eof}
use rssip.Scanner.Prefixes.{Stops}
use rssip.Scanner.Reading.{Yields, At, new-At, is_eof-At, next_byte-At, must_read-At, scan_while-At}
use rssip.Scanner.Strings.{is_newline}
use rssip.Media.Sdp.{IpAddr, SessionDescription}
use rssip.Media.Sdp.Printing.{text_line, crlf}
use rssip.Media.Sdp.Parsing.{read_field}
use rssip.Media.Sdp.Parser.{parse_field, parse_line, parse_lines, parse, default_session}
use rssip.Media.Sdp.Ends.{parse-ne-panic}
use rssip.Media.Sdp.RoundTrip.Fields.{eol}

module _ (is_utf8 : Text → Bool) (parse_ip : Text → Option IpAddr) where
  -- Turns of the loop, one after another.
  pub data Runs : SessionDescription → Scanner → SessionDescription → Scanner → Type 0 where
    stay : {d : SessionDescription} {s : Scanner} → Runs d s d s
    turn :
        {d d1 d2 : SessionDescription} {s s1 s2 : Scanner}
        → is_eof s ≡ false
        → parse_line is_utf8 parse_ip d s ≡ ok (d1, s1)
        → Runs d1 s1 d2 s2
        → Runs d s d2 s2

  Runs-append :
      {d d1 d2 : SessionDescription} {s s1 s2 : Scanner}
      → Runs d s d1 s1
      → Runs d1 s1 d2 s2
      → Runs d s d2 s2
  Runs-append stay more = more
  Runs-append (turn left e runs) more = turn left e (Runs-append runs more)

  -- The lines of this text lead from one description to the other, and end where a line ends.
  pub record Prints (t : Text) (d d' : SessionDescription) : Type 0 where
    pub starts : (after : Text) → Stops is_newline after → Stops is_newline (t ++ after)
    pub runs :
        (after : Text) (s : Scanner)
        → At s (t ++ after)
        → Stops is_newline after
        → (s' : Scanner) × Runs d s d' s' × At s' after

  pub nothing-Prints : (d : SessionDescription) → Prints [] d d
  nothing-Prints d = record { starts = λ after h. h; runs = λ after s h stops. (s, stay, h) }

  pub Prints-append :
      (t u : Text) (d d1 d2 : SessionDescription)
      → Prints t d d1
      → Prints u d1 d2
      → Prints (t ++ u) d d2
  Prints-append t u d d1 d2 p q = record {
    starts = λ after h.
        subst (Stops is_newline) (sym (append_assoc t u after))
          (p.starts (u ++ after) (q.starts after h));
    runs = λ after s h stops.
        let (s1, r1, h1) =
          p.runs (u ++ after) s (h.0, h.1 ∙ append_assoc t u after) (q.starts after stops) in
        let (s2, r2, h2) = q.runs after s1 h1 stops in (s2, Runs-append r1 r2, h2);
  }

  -- One line, whose body the parser of its field reads.
  pub line-Prints :
      (field : ℕ) (body : Text) (d d' : SessionDescription)
      → is_newline field ≡ false
      → ((after : Text) (s : Scanner)
          → At s (body ++ eol after)
          → Yields (parse_field is_utf8 parse_ip field d s) d' (eol after))
      → Prints (text_line field body) d d'
  line-Prints field body d d' letter reads = record {
    starts = λ after h. letter;
    runs = λ after s h stops.
        let whole : At s (field ∷ 61 ∷ (body ++ eol after)) =
          (h.0, h.1 ∙ ap (λ (t : Text). field ∷ 61 ∷ t) (append_assoc body crlf after)) in
        let (s1, e1, h1) = next_byte-At field (61 ∷ (body ++ eol after)) s whole in
        let (s2, e2, h2) = must_read-At 61 (body ++ eol after) s1 h1 in
        let (s3, e3, h3) = reads after s2 h2 in
        let (s4, e4, h4) = scan_while-At is_newline crlf after s3 h3 (refl, (refl, tt)) stops in
        let more : is_eof s ≡ false =
          is_eof-At (field ∷ 61 ∷ (body ++ eol after)) s whole ∙ ground arith in
        (
          s4,
          turn {d = d} {d1 = d'} {s = s} {s1 = s4} more
              (unfold parse_line read_field in rw (e1, e2, e3) (ap (λ r. ok (d', r.1)) e4)) stay,
          h4,
        );
  }

  parse_lines-Runs :
      (fuel : ℕ) {d d' : SessionDescription} {s s' : Scanner}
      → Runs d s d' s'
      → is_eof s' ≡ true
      → (parse_lines is_utf8 parse_ip fuel d s ≡ panic)
        ⊎ (parse_lines is_utf8 parse_ip fuel d s ≡ ok d')
  unfolding parse_lines
  parse_lines-Runs zero runs end = inl refl
  parse_lines-Runs (suc fuel) stay end = inr (rw (parse_lines, end) refl)
  parse_lines-Runs (suc fuel) (turn left e runs) end =
      rw (parse_lines, left, e) (parse_lines-Runs fuel runs end)

  -- A text whose lines lead from the default to a description is parsed as that description.
  pub parse-Prints :
      (local_ip : IpAddr) (t : Text) (d : SessionDescription)
      → Prints t (default_session local_ip) d
      → parse is_utf8 parse_ip local_ip t ≡ ok d
  parse-Prints local_ip t d p =
      let start = new-At t in
      let (s, runs, h) = p.runs [] (new t) (start.0, start.1 ∙ sym (append-nil t)) tt in
      let end : is_eof s ≡ true = is_eof-At [] s h in
      elim (parse_lines-Runs (suc (length t)) runs end) [
        | inl never ↦ absurd (parse-ne-panic is_utf8 parse_ip local_ip t (unfold parse in never))
        | inr e ↦ unfold parse in e
      ]
