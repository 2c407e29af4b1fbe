-- ===== src/Media/Sdp/RoundTrip/Spaced.antt =====
-- rssip-media/src/sdp/parser.rs: the loops over items behind spaces, and the line of a repeat time.
use mathlib.Core.List.{append_assoc}
use rssip.Prelude.{
  ℕ, zero, suc, ◌-◌, ◌^◌, ◌≤◌, ◌<◌, ◌≡◌, ◌⊎◌, inl, inr, refl, ap, ◌∙◌, Bool, false, Text, List, [],
  ◌∷◌, ◌++◌, some, All, length, length-append, is_digit, arith,
}
use rssip.Error.{Result, ok, ◌>>=◌}
use rssip.Scanner.{Scanner, peek, remaining, scan_if, scan_i64}
use rssip.Scanner.Consumed.{rest}
use rssip.Scanner.Positions.{remaining-rest}
use rssip.Scanner.Prefixes.{Stops}
use rssip.Scanner.Reading.{Yields, At, peek-At, scan_number-At, scan_if-At, scan_if-Stops}
use rssip.Scanner.Strings.{is_space}
use rssip.Media.Sdp.{RepeatTimes, ℤ, pos, negsuc}
use rssip.Media.Sdp.Printing.{signed, concat_map}
use rssip.Media.Sdp.Printable.{IsUnsigned, IsRepeat}
use rssip.Media.Sdp.Parsing.{
  scanned, handle_ws, read_spaced, spaced_items, at_line_end, behind_item, parse_offset,
  parse_repeat_times,
}
use rssip.Media.Sdp.RoundTrip.Fields.{eol, scanned-Yields}
use rssip.Media.Sdp.RoundTrip.Words.{handle_ws-At, decimal-Stops, digit_no_space}

-- Items behind spaces, in front of a tail.
abbrev pub spaced_then {ℓ} : {A : Type ℓ} → (A → Text) → List A → Text → Text
spaced_then show [] tail = tail
spaced_then show (a ∷ items) tail = 32 ∷ (show a ++ spaced_then show items tail)

pub spaced_then-concat_map {ℓ} :
    {A : Type ℓ} (show : A → Text) (items : List A) (tail : Text)
    → concat_map (λ a. 32 ∷ show a) items ++ tail ≡ spaced_then show items tail
spaced_then-concat_map show [] tail = refl
spaced_then-concat_map show (a ∷ items) tail =
    ap (λ (t : Text). 32 ∷ t)
      (append_assoc (show a) (concat_map (λ a. 32 ∷ show a) items) tail
        ∙ ap (λ (t : Text). show a ++ t) (spaced_then-concat_map show items tail))

-- Where one item ends.
abbrev pub Closed : Text → Type 0
Closed [] = ⊥
Closed (c ∷ rest) = (c ≡ 32) ⊎ (c ≡ 13)

module _ {ℓ} {A : Type ℓ} (show : A → Text) (Fits : A → Type 0)
    (read : Scanner → Result (A × Scanner))
    (read-Yields : (a : A) (after : Text) (s : Scanner)
      → At s (show a ++ after)
      → Fits a
      → Closed after
      → Yields (read s) a after) where
  read_spaced-ends :
      (fuel c : ℕ) (s s1 s2 : Scanner) (a : A)
      → scan_if is_space s ≡ (some c, s1)
      → read s1 ≡ ok (a, s2)
      → peek s2 ≡ some 13
      → read_spaced read (suc fuel) s ≡ ok (a ∷ [], s2)
  unfolding read_spaced
  read_spaced-ends fuel c s s1 s2 a e1 e2 e3 =
      rw (read_spaced, e1, e2)
        (ap (λ p. behind_item (at_line_end p) a (λ s. read_spaced read fuel s) s2) e3)

  read_spaced-goes_on :
      (fuel c : ℕ) (s s1 s2 s3 : Scanner) (a : A) (items : List A)
      → scan_if is_space s ≡ (some c, s1)
      → read s1 ≡ ok (a, s2)
      → peek s2 ≡ some 32
      → read_spaced read fuel s2 ≡ ok (items, s3)
      → read_spaced read (suc fuel) s ≡ ok (a ∷ items, s3)
  unfolding read_spaced
  read_spaced-goes_on fuel c s s1 s2 s3 a items e1 e2 e3 e4 =
      rw (read_spaced, e1, e2)
        (ap (λ p. behind_item (at_line_end p) a (λ s. read_spaced read fuel s) s2) e3
          ∙ ap (λ m. m >>= λ (rest, s). ok (a ∷ rest, s)) e4)

  read_spaced-Yields :
      (items : List A) (fuel : ℕ) (after : Text) (s : Scanner)
      → At s (spaced_then show items (eol after))
      → All Fits items
      → length items < fuel
      → Yields (read_spaced read fuel s) items (eol after)
  unfolding read_spaced
  read_spaced-Yields items zero after s h fits enough = absurd (omega arith)
  read_spaced-Yields [] (suc fuel) after s h fits enough =
      (s, rw (read_spaced, scan_if-Stops is_space (eol after) s h refl) refl, h)
  read_spaced-Yields (a ∷ []) (suc fuel) after s h fits enough =
      let (s1, e1, h1) = scan_if-At is_space 32 (show a ++ eol after) s h refl in
      let (s2, e2, h2) = read-Yields a (eol after) s1 h1 fits.0 (inr refl) in
      (s2, read_spaced-ends fuel 32 s s1 s2 a e1 e2 (peek-At 13 (10 ∷ after) s2 h2), h2)
  read_spaced-Yields (a ∷ b ∷ items) (suc fuel) after s h fits enough =
      let more = 32 ∷ (show b ++ spaced_then show items (eol after)) in
      let (s1, e1, h1) = scan_if-At is_space 32 (show a ++ more) s h refl in
      let (s2, e2, h2) = read-Yields a more s1 h1 fits.0 (inl refl) in
      let (s3, e3, h3) = read_spaced-Yields (b ∷ items) fuel after s2 h2 fits.1 (omega arith) in
      let there = peek-At 32 (show b ++ spaced_then show items (eol after)) s2 h2 in
      (s3, read_spaced-goes_on fuel 32 s s1 s2 s3 a (b ∷ items) e1 e2 there e3, h3)

  length-spaced_then :
      (items : List A) (tail : Text) → length items ≤ length (spaced_then show items tail)
  length-spaced_then [] tail = omega arith
  length-spaced_then (a ∷ items) tail =
      omega
        (arith, length-append (show a) (spaced_then show items tail), length-spaced_then items tail)

  pub spaced_items-Yields :
      (items : List A) (after : Text) (s : Scanner)
      → At s (spaced_then show items (eol after))
      → All Fits items
      → Yields (spaced_items read s) items (eol after)
  unfolding spaced_items
  spaced_items-Yields items after s h fits =
      let left : length (remaining s) ≡ length (spaced_then show items (eol after)) =
        ap (λ (t : Text). length t) (remaining-rest s h.0 ∙ h.1) in
      read_spaced-Yields items (suc (length (remaining s))) after s h fits
        (omega (arith, left, length-spaced_then items (eol after)))

pub Closed-Stops :
    (p : ℕ → Bool) (after : Text) → p 32 ≡ false → p 13 ≡ false → Closed after → Stops p after
Closed-Stops p [] space break closed = elim closed [ ]
Closed-Stops p (c ∷ rest) space break (inl e) = rw e space
Closed-Stops p (c ∷ rest) space break (inr e) = rw e break

spaced_then-Closed {ℓ} :
    {A : Type ℓ} (show : A → Text) (items : List A) (after : Text)
    → Closed (spaced_then show items (eol after))
spaced_then-Closed show [] after = inr refl
spaced_then-Closed show (a ∷ items) after = inl refl

signed-Stops : (n : ℤ) (after : Text) → IsUnsigned n → Stops is_space (signed n ++ after)
unfolding signed
signed-Stops (pos n) after fits = decimal-Stops is_space n after digit_no_space
signed-Stops (negsuc n) after fits = elim fits [ ]

-- A number without a sign.
abbrev magnitude : ℤ → ℕ
magnitude (pos n) = n
magnitude (negsuc n) = n

magnitude-pos : (n : ℤ) → IsUnsigned n → pos (magnitude n) ≡ n
magnitude-pos (pos n) fits = refl
magnitude-pos (negsuc n) fits = elim fits [ ]

signed-Yields :
    (n : ℤ) (after : Text) (s : Scanner)
    → At s (signed n ++ after)
    → IsUnsigned n
    → Closed after
    → Yields (scanned (scan_i64 s)) (magnitude n) after
unfolding signed
signed-Yields (pos n) after s h fits closed = scanned-Yields _ n after (
    scan_number-At (2 ^ 63 - 1) n after s h (Closed-Stops (λ c. is_digit c) after refl refl closed)
      fits)
signed-Yields (negsuc n) after s h fits closed = elim fits [ ]

offset-Yields :
    (n : ℤ) (after : Text) (s : Scanner)
    → At s (signed n ++ after)
    → IsUnsigned n
    → Closed after
    → Yields (parse_offset s) n after
offset-Yields n after s h fits closed =
    let (s1, e1, h1) = signed-Yields n after s h fits closed in
    (s1, rw e1 (ap (λ k. ok (k, s1)) (magnitude-pos n fits)), h1)

pub parse_repeat_times-Yields :
    (r : RepeatTimes) (after : Text) (s : Scanner)
    → At s (
        signed r.repeat_interval
        ++ (32 ∷ (signed r.active_duration ++ spaced_then signed r.offsets (eol after))))
    → IsRepeat r
    → Yields (parse_repeat_times s) r (eol after)
unfolding parse_repeat_times
parse_repeat_times-Yields r after s h is =
    let more = spaced_then signed r.offsets (eol after) in
    let (s1, e1, h1) =
      signed-Yields r.repeat_interval (32 ∷ (signed r.active_duration ++ more)) s h is.interval
        (inl refl) in
    let start =
      handle_ws-At (signed r.active_duration ++ more) s1 h1
        (signed-Stops r.active_duration more is.duration) in
    let (s2, e2, h2) =
      signed-Yields r.active_duration more (handle_ws s1) start is.duration
        (spaced_then-Closed signed r.offsets after) in
    let (s3, e3, h3) =
      spaced_items-Yields signed IsUnsigned parse_offset offset-Yields r.offsets after s2 h2
        is.offsets in
    (
      s3,
      rw (e1, e2, e3)
          (ap
            (λ (i, d).
              ok (record { repeat_interval = i; active_duration = d; offsets = r.offsets }, s3))
            (ap (λ i. (i, pos (magnitude r.active_duration)))
                (magnitude-pos r.repeat_interval is.interval)
              ∙ ap (λ d. (r.repeat_interval, d)) (magnitude-pos r.active_duration is.duration))),
      h3,
    )
