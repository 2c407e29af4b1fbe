-- ===== src/Scanner.antt =====
-- rssip-utils/src/scanner/mod.rs: the scanner that every parser of the repository stands on. Each
-- operation gives its outcome and the scanner that it leaves.
pub mod Consumed
pub mod Positions
pub mod Lines
pub mod Prefixes
pub mod Numbers
pub mod Strings
pub mod Within
pub mod Forward
pub mod Reading
use rssip.Prelude.{
  ℕ, zero, suc, ◌+◌, ◌-◌, ◌^◌, Bool, true, false, not, ◌&&◌, ◌||◌, ◌==◌, Text, text_eq, starts_with,
  List, [], ◌∷◌, Option, none, some, length, take, drop, get_elem?, any, leb, is_digit,
  parse_unsigned, if◌then◌else◌,
}

pub record Position : Type 0 where
  pub line : ℕ
  pub column : ℕ

pub data ScannerErrorKind : Type 0 where
  eof non_new_line invalid_number invalid_utf8 : ScannerErrorKind
  unexpected_byte : ℕ → ℕ → ScannerErrorKind

pub record ScannerError : Type 0 where
  pub kind : ScannerErrorKind
  pub position : Position

pub record Scanner : Type 0 where
  pub buffer : Text
  pub position : Position
  pub index : ℕ
  pub len : ℕ

-- `Result<T, ScannerError>`.
pub data Scanned {ℓ} (A : Type ℓ) : Type ℓ where
  done : A → Scanned A
  failed : ScannerError → Scanned A

abbrev pub start : Position
start = record { line = 1; column = 0 }

unfoldable pub new : Text → Scanner
new buffer = record { buffer = buffer; position = start; index = 0; len = length buffer }

abbrev pub remaining : Scanner → Text
remaining s = take (s.len - s.index) (drop s.index s.buffer)

abbrev pub peek : Scanner → Option ℕ
peek s = get_elem? s.buffer s.index

abbrev pub next_position : Position → ℕ → Position
next_position p byte =
    if byte == 10
    then record { line = p.line + 1; column = 1 }
    else record { line = p.line; column = p.column + 1 }

unfoldable pub bump : ℕ → Scanner → Scanner
bump byte s = record s { index = suc s.index; position = next_position s.position byte }

unfoldable pub is_eof : Scanner → Bool
is_eof s = s.index == s.len

abbrev pub scan_error : Scanner → ScannerErrorKind → ScannerError
scan_error s kind = record { kind = kind; position = s.position }

abbrev pub bump_peeked : Option ℕ → Scanner → Scanner
bump_peeked none s = s
bump_peeked (some c) s = bump c s

unfoldable pub scan : Scanner → Option ℕ × Scanner
unfolding bump
scan s = (peek s, bump_peeked (peek s) s)

abbrev or_eof {ℓ} : {A : Type ℓ} → Option A → Scanner → Scanned A
or_eof none s = failed (scan_error s eof)
or_eof (some a) s = done a

unfoldable pub next_byte : Scanner → Scanned ℕ × Scanner
unfolding scan
next_byte s = let (byte, s') = scan s in (or_eof byte s', s')

-- The loop stops early at the end of the buffer.
unfoldable pub advance_n : ℕ → Scanner → Scanner
unfolding scan
advance_n zero s = s
advance_n (suc n) s = elim (peek s) [ none ↦ s | some c ↦ advance_n n (bump c s) ]

unfoldable pub matches_prefix : Text → Scanner → Bool
matches_prefix prefix s = starts_with (remaining s) prefix

unfoldable pub peek_n : ℕ → Scanner → Option Text
peek_n n s = if leb n (length (remaining s)) then some (take n (remaining s)) else none

-- The bytes that the loops below peek at are those that remain, one after another.
unfoldable pub read_while : (ℕ → Bool) → Text → Scanner → Text × Scanner
unfolding bump
read_while p [] s = ([], s)
read_while p (c ∷ rest) s =
    let (bytes, s') = read_while p rest (bump c s) in if p c then (c ∷ bytes, s') else ([], s)

unfoldable pub scan_while : (ℕ → Bool) → Scanner → Text × Scanner
unfolding read_while
scan_while p s = read_while p (remaining s) s

-- Up to the first byte that the test fails.
unfoldable pub take_while : (ℕ → Bool) → Text → Text
take_while p [] = []
take_while p (c ∷ rest) = let bytes = take_while p rest in if p c then c ∷ bytes else []

unfoldable pub peek_while : (ℕ → Bool) → Scanner → Text
unfolding take_while
peek_while p s = take_while p (remaining s)

abbrev peek_byte_if : (ℕ → Bool) → Option ℕ → Option ℕ
peek_byte_if p none = none
peek_byte_if p (some c) = if p c then some c else none

unfoldable pub peek_if : (ℕ → Bool) → Scanner → Option ℕ
peek_if p s = peek_byte_if p (peek s)

-- The loop over `remaining.iter().zip(expected)`.
unfoldable pub scan_zip : Text → Text → Scanner → Scanned (Unit {0}) × Scanner
unfolding bump
scan_zip [] expected s = (done tt, s)
scan_zip (c ∷ rest) [] s = (done tt, s)
scan_zip (c ∷ rest) (e ∷ expected) s =
    let more = scan_zip rest expected (bump c s) in
    if c == e then more else (failed (scan_error s (unexpected_byte e c)), s)

unfoldable pub must_scan_slice : Text → Scanner → Scanned (Unit {0}) × Scanner
unfolding scan_zip
must_scan_slice expected s = scan_zip (drop s.index s.buffer) expected s

abbrev must_read_byte : ℕ → Option ℕ → Scanner → Scanned (Unit {0}) × Scanner
must_read_byte expected none s = (failed (scan_error s eof), s)
must_read_byte expected (some found) s =
    if expected == found
    then (done tt, bump found s)
    else (failed (scan_error s (unexpected_byte expected found)), s)

unfoldable pub must_read : ℕ → Scanner → Scanned (Unit {0}) × Scanner
unfolding bump
must_read expected s = must_read_byte expected (peek s) s

abbrev pub scan_byte_if : (ℕ → Bool) → Option ℕ → Scanner → Option ℕ × Scanner
scan_byte_if p none s = (none, s)
scan_byte_if p (some byte) s = if p byte then (some byte, bump byte s) else (none, s)

unfoldable pub scan_if : (ℕ → Bool) → Scanner → Option ℕ × Scanner
unfolding bump
scan_if p s = scan_byte_if p (peek s) s

abbrev pub scan_if_eq : ℕ → Scanner → Option ℕ × Scanner
scan_if_eq expected s = scan_if (λ b. b == expected) s

abbrev newline_scanned : Option ℕ → Option ℕ → Scanner → Scanned (Unit {0})
newline_scanned none none s = failed (scan_error s non_new_line)
newline_scanned _ _ s = done tt

unfoldable pub scan_newline : Scanner → Scanned (Unit {0}) × Scanner
unfolding scan_if
scan_newline s =
    let (carriage_return, s1) = scan_if_eq 13 s in
    let (line_feed, s2) = scan_if_eq 10 s1 in (newline_scanned carriage_return line_feed s2, s2)

unfoldable pub scan_until : ℕ → Scanner → Text × Scanner
unfolding scan_while
scan_until byte s = scan_while (λ b. not (b == byte)) s

-- `scan_number_str(false)` and `parse`, for a type with the greatest value `limit`.
abbrev pub number_scanned : Option ℕ → Scanner → Scanned ℕ
number_scanned none s = failed (scan_error s invalid_number)
number_scanned (some n) s = done n

unfoldable pub scan_number : ℕ → Scanner → Scanned ℕ × Scanner
unfolding scan_while
scan_number limit s =
    let (digits, s') = scan_while (λ b. is_digit b) s in
    (number_scanned (parse_unsigned limit digits) s', s')

abbrev pub scan_u16 : Scanner → Scanned ℕ × Scanner
scan_u16 = scan_number (2 ^ 16 - 1)

abbrev pub scan_u32 : Scanner → Scanned ℕ × Scanner
scan_u32 = scan_number (2 ^ 32 - 1)

abbrev pub scan_u64 : Scanner → Scanned ℕ × Scanner
scan_u64 = scan_number (2 ^ 64 - 1)

-- The digits have no sign, so only the upper end matters.
abbrev pub scan_i64 : Scanner → Scanned ℕ × Scanner
scan_i64 = scan_number (2 ^ 63 - 1)
