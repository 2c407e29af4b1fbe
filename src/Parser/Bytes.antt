-- ===== src/Parser/Bytes.antt =====
-- rssip/src/parser.rs: the tables of bytes, and the wrappers of the scanner.
use rssip.Prelude.{ℕ, Bool, ◌||◌, within, ◌==◌, Text, codes, any, Option, none, some}
use rssip.Error.{parse, Result, ok, err, ◌>>=◌}
use rssip.Scanner.{Scanner, Scanned, next_byte, must_read, scan_while}
use rssip.Scanner.Strings.{is_space, is_newline, or_err}

-- `lookup_table!` of the alphanumeric bytes and the given ones.
abbrev table : Text → ℕ → Bool
table bytes b = within 97 122 b || within 65 90 b || within 48 57 b || any (λ c. c == b) bytes

unfoldable pub is_token : ℕ → Bool
is_token = table (codes "-.!%*_`'~+")

unfoldable pub is_user : ℕ → Bool
is_user = table (codes "-_.!~*'()%&=+$,;?/")

unfoldable pub is_pass : ℕ → Bool
is_pass = table (codes "-_.!~*'()%&=+$,")

unfoldable pub is_host : ℕ → Bool
is_host = table (codes "_-.")

unfoldable pub is_param : ℕ → Bool
is_param = table (codes "[]/:&+$-_.!~*'()%")

unfoldable pub is_hdr_uri : ℕ → Bool
is_hdr_uri = table (codes "[]/?:+$-_.!~*'()%")

unfoldable pub is_via_param : ℕ → Bool
is_via_param = table (codes "[:]-.!%*_`'~+")

-- `?` on an outcome of the scanner, and on a conversion.
abbrev pub scanned {ℓ} : {A : Type ℓ} → Scanned A × Scanner → Result (A × Scanner)
scanned = or_err parse

abbrev pub ok_or {ℓ} : {A : Type ℓ} → Option A → Result A
ok_or none = err parse
ok_or (some a) = ok a

abbrev pub skip_ws : Scanner → Scanner
skip_ws s = (scan_while is_space s).1

abbrev pub skip_newline : Scanner → Scanner
skip_newline s = (scan_while is_newline s).1

abbrev pub advance : Scanner → Result (ℕ × Scanner)
advance s = scanned (next_byte s)

abbrev pub read_byte : ℕ → Scanner → Result (Unit {0} × Scanner)
read_byte b s = scanned (must_read b s)

abbrev pub read_token : Scanner → Text × Scanner
read_token = scan_while (λ b. is_token b)

unfoldable pub header_name : Scanner → Result (Text × Scanner)
header_name s = do
  let (label, s) = read_token s
  (_, s) ← read_byte b':' (skip_ws s)
  ok (label, skip_ws s)
