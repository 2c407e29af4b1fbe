-- ===== src/Tests/Scanner.antt =====
-- Runs of the scanner.
use rssip.Prelude.{List, ◌≡◌, true, Text, codes, [], ◌∷◌, ◌++◌, All, is_digit}
use rssip.Scanner.{Scanner, new, scan_while, peek_while}
use rssip.Scanner.Consumed.{rest}
use rssip.Scanner.Positions.{Op, next, newline, new-IsValid}
use rssip.Scanner.Prefixes.{Stops, scan_while-peek_while}

abbrev two_lines : Text
two_lines = codes "a\r\nbc"

abbrev ops : List Op
ops = next ∷ newline ∷ next ∷ []

abbrev port : Scanner
port = new (codes "5060;x")

scan_while-peek_while_example :
    let (bytes, s) = scan_while (λ c. is_digit c) port in
    (bytes ≡ peek_while (λ c. is_digit c) port)
    × (rest port ≡ bytes ++ rest s)
    × All (λ c. is_digit c ≡ true) bytes
    × Stops (λ c. is_digit c) (rest s)
scan_while-peek_while_example =
    scan_while-peek_while (λ c. is_digit c) port (new-IsValid (codes "5060;x"))

abbrev truncated : Scanner
truncated = new (codes "SIP/2")
