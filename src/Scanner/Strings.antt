-- ===== src/Scanner/Strings.antt =====
-- rssip-utils/src/scanner/mod.rs: the operations that give a `&str`, and the ways from the outcomes
-- of the scanner to the results of a parser. `is_utf8` is the check of `std::str::from_utf8`.
use rssip.Prelude.{Option, none, some, ℕ, Bool, not, ◌||◌, ◌==◌, Text, any, if◌then◌else◌}
use rssip.Scanner.{scan_if_eq, Scanner, invalid_utf8, Scanned, done, failed, scan_error, scan_while}
use rssip.Error.{Error, Result, ok, err, ◌>>=◌}

abbrev pub is_space : ℕ → Bool
is_space b = (b == 32) || (b == 9)

abbrev pub is_newline : ℕ → Bool
is_newline b = (b == 13) || (b == 10)

-- `u8::is_ascii_whitespace`.
abbrev pub is_whitespace : ℕ → Bool
is_whitespace b = (b == 32) || (b == 9) || (b == 10) || (b == 12) || (b == 13)

module _ (is_utf8 : Text → Bool) where
  unfoldable pub scan_while_as_str : (ℕ → Bool) → Scanner → Scanned Text × Scanner
  scan_while_as_str p s =
      let (bytes, s) = scan_while p s in
      (if is_utf8 bytes then done bytes else failed (scan_error s invalid_utf8), s)

  abbrev pub scan_until_as_str : ℕ → Scanner → Scanned Text × Scanner
  scan_until_as_str byte = scan_while_as_str (λ b. not (b == byte))

  abbrev pub scan_until_any_as_str : Text → Scanner → Scanned Text × Scanner
  scan_until_any_as_str bytes = scan_while_as_str (λ b. not (any (λ c. c == b) bytes))

  abbrev pub scan_line : Scanner → Scanned Text × Scanner
  scan_line = scan_while_as_str (λ b. not (is_newline b))

-- `?` on an outcome of the scanner, whose error becomes the parser's `e`.
abbrev pub or_err {ℓ} : {A : Type ℓ} → Error → Scanned A × Scanner → Result (A × Scanner)
or_err e (done a, s) = ok (a, s)
or_err e (failed f, s) = err e

-- `if scan_if(..).is_some()`: what is done without the byte, and behind it.
abbrev pub if_read {ℓ} : {A : Type ℓ} → Option ℕ × Scanner → (Scanner → A) → (Scanner → A) → A
if_read (none, s) without behind = without s
if_read (some c, s) without behind = behind s

-- `if scan_if_eq(..).is_some()`, then what is read behind that byte.
unfoldable pub read_behind {ℓ} :
    {A : Type ℓ} → ℕ → (Scanner → Result (A × Scanner)) → Scanner → Result (Option A × Scanner)
read_behind byte read s =
    if_read (scan_if_eq byte s) (λ s. ok (none, s)) (λ s. read s >>= λ (a, s). ok (some a, s))
