-- ===== src/Scanner/Numbers.antt =====
-- Numbers: what is printed in decimal is scanned back, and what is scanned fits its type.
use rssip.Prelude.{
  ℕ, ◌≤◌, ◌≡◌, refl, ap, ◌∙◌, Bool, true, Text, [], ◌∷◌, ◌++◌, All, is_digit, decimal,
  decimal-IsDigits, parse_unsigned, parse_unsigned-decimal, parse_unsigned-le, Option-cases, inl,
  inr, arith,
}
use rssip.Scanner.{Scanner, done, remaining, take_while, scan_while, scan_number, number_scanned}
use rssip.Scanner.Consumed.{rest, drop-add}
use rssip.Scanner.Positions.{IsValid, remaining-rest, scan_while_lem}
use rssip.Scanner.Prefixes.{Stops}

pub take_while-append :
    (p : ℕ → Bool) (xs after : Text)
    → All (λ c. p c ≡ true) xs
    → Stops p after
    → take_while p (xs ++ after) ≡ xs
unfolding take_while
take_while-append p [] [] all stops = refl
take_while-append p [] (c ∷ after) all stops = rw stops refl
take_while-append p (c ∷ xs) after all stops =
    rw (all.0, take_while-append p xs after all.1 stops) refl

-- Where the decimal digits of a number come next, and no further digit behind them, scanning a
-- number gives that number, if it is within the limit of the type, and leaves what stands behind.
pub scan_number-decimal :
    (limit n : ℕ) (s : Scanner) (after : Text)
    → IsValid s
    → rest s ≡ decimal n ++ after
    → Stops (λ c. is_digit c) after
    → n ≤ limit
    → let (result, s') = scan_number limit s in (result ≡ done n) × (rest s' ≡ after)
unfolding scan_number
scan_number-decimal limit n s after v e stops fits =
    let taken : take_while (λ c. is_digit c) (remaining s) ≡ decimal n =
      ap (take_while (λ c. is_digit c)) (remaining-rest s v ∙ e)
      ∙ take_while-append (λ c. is_digit c) (decimal n) after (decimal-IsDigits n) stops in
    rw (scan_while_lem (λ c. is_digit c) s, taken, parse_unsigned-decimal n limit fits)
      (refl, drop-add s.buffer s.index (decimal n) after e)

number_scanned-le :
    (limit n : ℕ) (text : Text) (s : Scanner)
    → number_scanned (parse_unsigned limit text) s ≡ done n
    → n ≤ limit
number_scanned-le limit n text s e = elim (Option-cases (parse_unsigned limit text)) [
  | inl h ↦ let never = rw h at e in cc
  | inr (m, h) ↦ let same = rw h at e in ground (arith, parse_unsigned-le limit m text h, same)
]

-- A number that is scanned is within the limit of its type: a larger one is an error, not a wrap.
pub scan_number-le : (limit n : ℕ) (s : Scanner) → (scan_number limit s).0 ≡ done n → n ≤ limit
unfolding scan_number
scan_number-le limit n s e =
    number_scanned-le limit n (scan_while (λ c. is_digit c) s).0 (scan_while (λ c. is_digit c) s).1
      e
