-- ===== src/Scanner/Reading.antt =====
-- rssip-utils/src/scanner/mod.rs: what each operation gives where the bytes that come next are known.
use rssip.Prelude.{
  ℕ, zero, suc, ◌-◌, ◌≤◌, ◌≡◌, refl, sym, ap, ◌∙◌, Bool, true, ◌==◌, starts_with, Text, [], ◌∷◌,
  ◌++◌, none, some, All, length, length-append, take, drop, get_elem?, leb, is_digit, decimal,
  decimal-IsDigits, parse_unsigned-decimal, arith,
}
use rssip.Scanner.{
  Scanner, Scanned, done, new, remaining, peek, bump, is_eof, next_byte, advance_n, matches_prefix,
  peek_n, peek_while, take_while, scan, scan_while, scan_if, scan_number, must_read,
}
use rssip.Scanner.Consumed.{rest, advanced, Consumes-bump, drop-add, get_elem?-drop}
use rssip.Scanner.Positions.{IsValid, new-IsValid, Consumes-IsValid, remaining-rest, scan_while_lem}
use rssip.Scanner.Prefixes.{Stops}
use rssip.Scanner.Numbers.{take_while-append}
use rssip.Scanner.Strings.{scan_while_as_str, or_err}
use rssip.Error.{Error, Result, ok, err}

-- The scanner stands in front of these bytes.
abbrev pub At : Scanner → Text → Type 0
At s text = IsValid s × (rest s ≡ text)

-- The operation gives the value, and the scanner stands in front of the bytes behind it.
abbrev pub Gives {ℓ} : {A : Type ℓ} → A × Scanner → A → Text → Type ℓ
Gives {A = A} outcome a after = (s : Scanner) × (outcome ≡ (a, s)) × At s after

pub new-At : (text : Text) → At (new text) text
unfolding new
new-At text = (new-IsValid text, refl)

pub peek-At : (c : ℕ) (after : Text) (s : Scanner) → At s (c ∷ after) → peek s ≡ some c
peek-At c after s (v, e) = (get_elem?-drop s.buffer s.index c after e).0

nil_get : (xs : Text) (i : ℕ) → drop i xs ≡ [] → get_elem? xs i ≡ none
nil_get [] zero e = refl
nil_get [] (suc i) e = refl
nil_get (x ∷ xs) zero e = cc
nil_get (x ∷ xs) (suc i) e = nil_get xs i e

peek-none : (s : Scanner) → At s [] → peek s ≡ none
peek-none s (v, e) = nil_get s.buffer s.index e

pub bump-At : (c : ℕ) (after : Text) (s : Scanner) → At s (c ∷ after) → At (bump c s) after
bump-At c after s h =
    let taken = Consumes-bump s c (peek-At c after s h) in
    (
      Consumes-IsValid s (bump c s) (c ∷ []) h.0 taken,
      unfold bump in (get_elem?-drop s.buffer s.index c after h.1).1,
    )

advanced-At : (xs after : Text) (s : Scanner) → At s (xs ++ after) → At (advanced xs s) after
advanced-At xs after s (v, e) =
    let behind = drop-add s.buffer s.index xs after e in
    (
      Consumes-IsValid s (advanced xs s) xs v (refl, e ∙ ap (λ (t : Text). xs ++ t) (sym behind)),
      behind,
    )

pub scan_while-At :
    (p : ℕ → Bool) (xs after : Text) (s : Scanner)
    → At s (xs ++ after)
    → All (λ c. p c ≡ true) xs
    → Stops p after
    → Gives (scan_while p s) xs after
scan_while-At p xs after s h all stops =
    let taken : take_while p (remaining s) ≡ xs =
      ap (take_while p) (remaining-rest s h.0 ∙ h.1) ∙ take_while-append p xs after all stops in
    (advanced xs s, rw (scan_while_lem p s, taken) refl, advanced-At xs after s h)

pub scan_while_as_str-At :
    (is_utf8 : Text → Bool) (p : ℕ → Bool) (xs after : Text) (s : Scanner)
    → At s (xs ++ after)
    → All (λ c. p c ≡ true) xs
    → Stops p after
    → is_utf8 xs ≡ true
    → Gives (scan_while_as_str is_utf8 p s) (done xs) after
unfolding scan_while_as_str
scan_while_as_str-At is_utf8 p xs after s h all stops utf8 =
    let (s', e, behind) = scan_while-At p xs after s h all stops in (s', rw (e, utf8) refl, behind)

pub scan_number-At :
    (limit n : ℕ) (after : Text) (s : Scanner)
    → At s (decimal n ++ after)
    → Stops (λ c. is_digit c) after
    → n ≤ limit
    → Gives (scan_number limit s) (done n) after
unfolding scan_number
scan_number-At limit n after s h stops fits =
    let (s', e, behind) =
      scan_while-At (λ c. is_digit c) (decimal n) after s h (decimal-IsDigits n) stops in
    (s', rw (e, parse_unsigned-decimal n limit fits) refl, behind)

pub must_read-At :
    (c : ℕ) (after : Text) (s : Scanner) → At s (c ∷ after) → Gives (must_read c s) (done tt) after
unfolding must_read
must_read-At c after s h =
    let same : (c == c) ≡ true = ground arith in
    (bump c s, rw (peek-At c after s h, same) refl, bump-At c after s h)

pub next_byte-At :
    (c : ℕ) (after : Text) (s : Scanner) → At s (c ∷ after) → Gives (next_byte s) (done c) after
unfolding next_byte scan
next_byte-At c after s h = (bump c s, rw (peek-At c after s h) refl, bump-At c after s h)

pub scan_if-At :
    (p : ℕ → Bool) (c : ℕ) (after : Text) (s : Scanner)
    → At s (c ∷ after)
    → p c ≡ true
    → Gives (scan_if p s) (some c) after
unfolding scan_if
scan_if-At p c after s h fits = (bump c s, rw (peek-At c after s h, fits) refl, bump-At c after s h)

pub scan_if-Stops :
    (p : ℕ → Bool) (after : Text) (s : Scanner)
    → At s after
    → Stops p after
    → scan_if p s ≡ (none, s)
unfolding scan_if
scan_if-Stops p [] s h stops = rw (peek-none s h) refl
scan_if-Stops p (c ∷ after) s h stops = rw (peek-At c after s h, stops) refl

length-drop : (xs : Text) (i : ℕ) → length (drop i xs) ≡ length xs - i
length-drop xs zero = omega arith
length-drop [] (suc i) = omega arith
length-drop (x ∷ xs) (suc i) = omega (arith, length-drop xs i)

pub is_eof-At : (text : Text) (s : Scanner) → At s text → is_eof s ≡ (length text == 0)
unfolding is_eof
is_eof-At text s (v, e) =
    ground (arith, v.whole, v.inside, length-drop s.buffer s.index, ap (λ (t : Text). length t) e)

pub matches_prefix-At :
    (text prefix : Text) (s : Scanner)
    → At s text
    → matches_prefix prefix s ≡ starts_with text prefix
unfolding matches_prefix
matches_prefix-At text prefix s h = rw (remaining-rest s h.0, h.1) refl

take_length : (xs after : Text) → take (length xs) (xs ++ after) ≡ xs
take_length [] after = refl
take_length (c ∷ xs) after = ap (λ (t : Text). c ∷ t) (take_length xs after)

pub peek_n-At :
    (xs after : Text) (s : Scanner) → At s (xs ++ after) → peek_n (length xs) s ≡ some xs
unfolding peek_n
peek_n-At xs after s h =
    let long : leb (length xs) (length (xs ++ after)) ≡ true =
      ground (arith, length-append xs after) in
    rw (remaining-rest s h.0, h.1, long, take_length xs after) refl

pub advance_n-At :
    (xs after : Text) (s : Scanner) → At s (xs ++ after) → At (advance_n (length xs) s) after
unfolding advance_n
advance_n-At [] after s h = h
advance_n-At (c ∷ xs) after s h =
    rw (advance_n, peek-At c (xs ++ after) s h)
      (advance_n-At xs after (bump c s) (bump-At c (xs ++ after) s h))

-- Where no digit comes next, there is no number.
pub scan_number-fails :
    (limit : ℕ) (text : Text) (s : Scanner) (e : Error)
    → At s text
    → Stops (λ c. is_digit c) text
    → or_err e (scan_number limit s) ≡ err e
unfolding scan_number
scan_number-fails limit text s e h stops =
    let (s', same, behind) = scan_while-At (λ c. is_digit c) [] text s h tt stops in rw same refl

-- The parser succeeds with the value, in front of the bytes behind it.
abbrev pub Yields {ℓ} : {A : Type ℓ} → Result (A × Scanner) → A → Text → Type ℓ
Yields m a after = (s : Scanner) × (m ≡ ok (a, s)) × At s after

pub or_err-Yields {ℓ} :
    {A : Type ℓ} (e : Error) (outcome : Scanned A × Scanner) (a : A) (after : Text)
    → Gives outcome (done a) after
    → Yields (or_err e outcome) a after
or_err-Yields e outcome a after (s, same, h) = (s, rw same refl, h)

pub peek_while-At :
    (p : ℕ → Bool) (xs after : Text) (s : Scanner)
    → At s (xs ++ after)
    → All (λ c. p c ≡ true) xs
    → Stops p after
    → peek_while p s ≡ xs
unfolding peek_while
peek_while-At p xs after s h all stops =
    ap (take_while p) (remaining-rest s h.0 ∙ h.1) ∙ take_while-append p xs after all stops
