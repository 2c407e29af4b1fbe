-- ===== src/Media/Sdp/RoundTrip/Words.antt =====
-- rssip-media/src/sdp/parser.rs: the words of a line.
use rssip.Prelude.{
  ℕ, ◌≤◌, ◌≡◌, ◌≢◌, refl, Bool, true, false, Text, [], ◌∷◌, ◌++◌, All, All-map, is_digit, decimal,
  decimal-IsDigits, decimal-ne-nil, arith,
}
use rssip.Scanner.{Scanner, done, scan_number}
use rssip.Scanner.Prefixes.{Stops}
use rssip.Scanner.Reading.{At, Gives, scan_while-At, scan_while_as_str-At, scan_number-At}
use rssip.Scanner.Strings.{is_space, is_whitespace, scan_while_as_str}
use rssip.Media.Sdp.Parsing.{handle_ws}

pub first-Stops :
    (p : ℕ → Bool) (t after : Text) → t ≢ [] → All (λ c. p c ≡ false) t → Stops p (t ++ after)
first-Stops p [] after ne all = absurd (ne refl)
first-Stops p (c ∷ t) after ne all = all.0

pub decimal-Stops :
    (p : ℕ → Bool) (n : ℕ) (after : Text)
    → ((c : ℕ) → is_digit c ≡ true → p c ≡ false)
    → Stops p (decimal n ++ after)
decimal-Stops p n after other =
    first-Stops p (decimal n) after (decimal-ne-nil n)
      (All-map (decimal n) other (decimal-IsDigits n))

pub digit_no_space : (c : ℕ) → is_digit c ≡ true → is_space c ≡ false
digit_no_space c h = ground arith

pub handle_ws-At : (t : Text) (s : Scanner) → At s (32 ∷ t) → Stops is_space t → At (handle_ws s) t
handle_ws-At t s h stops =
    let (s', e, behind) = scan_while-At is_space (32 ∷ []) t s h (refl, tt) stops in
    rw (handle_ws, e) behind

-- No space to skip.
pub handle_ws-stays : (t : Text) (s : Scanner) → At s t → Stops is_space t → At (handle_ws s) t
handle_ws-stays t s h stops =
    let (s', e, behind) = scan_while-At is_space [] t s h tt stops in rw (handle_ws, e) behind

-- A number behind a space.
pub spaced_number-At :
    (limit n : ℕ) (after : Text) (s : Scanner)
    → At s (32 ∷ decimal n ++ after)
    → Stops (λ c. is_digit c) after
    → n ≤ limit
    → Gives (scan_number limit (handle_ws s)) (done n) after
spaced_number-At limit n after s h stops fits =
    scan_number-At limit n after (handle_ws s)
      (handle_ws-At (decimal n ++ after) s h (decimal-Stops is_space n after digit_no_space)) stops
      fits

pub blank_space : (c : ℕ) → is_whitespace c ≡ false → is_space c ≡ false
blank_space c h = ground (arith, h)

-- A word behind a space, up to the first byte that a test of blanks fails.
pub spaced_word-At :
    (is_utf8 : Text → Bool) (p : ℕ → Bool) (t after : Text) (s : Scanner)
    → At s (32 ∷ t ++ after)
    → t ≢ []
    → All (λ c. is_whitespace c ≡ false) t
    → ((c : ℕ) → is_whitespace c ≡ false → p c ≡ true)
    → Stops p after
    → is_utf8 t ≡ true
    → Gives (scan_while_as_str is_utf8 p (handle_ws s)) (done t) after
spaced_word-At is_utf8 p t after s h ne all fits stops utf8 =
    scan_while_as_str-At is_utf8 p t after (handle_ws s)
      (handle_ws-At (t ++ after) s h (first-Stops is_space t after ne (All-map t blank_space all)))
      (All-map t fits all) stops utf8
