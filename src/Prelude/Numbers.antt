-- ===== src/Prelude/Numbers.antt =====
-- Decimal numbers in texts: `str::parse` of the unsigned types, and `Display` of a number.
use Prim.Native.Nat.{ℕ, zero, suc, ◌+◌, ◌-◌, ◌*◌, ◌/◌, ◌%◌, ◌≤◌, ◌<◌}
use mathlib.Core.Path.{◌≡◌, refl, ◌∙◌}
use mathlib.Core.Logic.{inl, inr, ◌≢◌}
use mathlib.Core.Bool.{Bool, true, false, ◌&&◌}
use mathlib.Core.List.{[], ◌∷◌}
use mathlib.Core.Option.{Option, none, some}
use native.Mathlib.Omega.{arith}
use rssip.Prelude.Tests.{ltb, leb, ◌==◌, within, if◌then◌else◌, Bool-cases}
use rssip.Prelude.Lists.{All}
use rssip.Prelude.Texts.{Text}

abbrev pub is_digit : ℕ → Bool
is_digit c = within 48 57 c

-- Digits up to a greatest value, behind the number `n` that is read already.
abbrev pub parse_digits : ℕ → ℕ → Text → Option ℕ
parse_digits limit n [] = some n
parse_digits limit n (c ∷ cs) =
    let m = n * 10 + (c - 48) in
    let rest = parse_digits limit m cs in if is_digit c && leb m limit then rest else none

abbrev some_digits : ℕ → Text → Option ℕ
some_digits limit [] = none
some_digits limit (c ∷ cs) = parse_digits limit 0 (c ∷ cs)

-- An optional plus sign, then at least one digit.
abbrev pub parse_unsigned : ℕ → Text → Option ℕ
parse_unsigned limit [] = none
parse_unsigned limit (c ∷ cs) = if c == 43 then some_digits limit cs else some_digits limit (c ∷ cs)

-- The digits of `n` in front of `acc`, on fuel above `n`.
unfoldable pub digits_before : ℕ → ℕ → Text → Text
digits_before zero n acc = acc
digits_before (suc fuel) n acc =
    if ltb n 10 then (48 + n) ∷ acc else digits_before fuel (n / 10) ((48 + n % 10) ∷ acc)

unfoldable pub decimal : ℕ → Text
unfolding digits_before
decimal n = digits_before (suc n) n []

digit_step :
    (limit n d : ℕ) (cs : Text)
    → d < 10
    → n * 10 + d ≤ limit
    → parse_digits limit n ((48 + d) ∷ cs) ≡ parse_digits limit (n * 10 + d) cs
digit_step limit n d cs small fits =
    let same : n * 10 + (48 + d - 48) ≡ n * 10 + d = omega arith in
    let digit : is_digit (48 + d) ≡ true = ground arith in
    let low : leb (n * 10 + d) limit ≡ true = ground arith in rw (same, digit, low) refl

zero_digits : (n : ℕ) → 0 * 10 + n ≡ n
zero_digits n = omega arith

parse_digits-digits_before :
    (fuel n limit : ℕ) (acc : Text)
    → n < fuel
    → n ≤ limit
    → parse_digits limit 0 (digits_before fuel n acc) ≡ parse_digits limit n acc
unfolding digits_before
parse_digits-digits_before zero n limit acc h fits = elim h [ ]
parse_digits-digits_before (suc fuel) n limit acc h fits = elim (Bool-cases (ltb n 10)) [
  | inl small ↦
      rw small (digit_step limit 0 n acc (ground arith) (omega arith) ∙ rw (zero_digits n) refl)
  | inr big ↦
      let whole : n / 10 * 10 + n % 10 ≡ n = omega arith in
      rw big (
        parse_digits-digits_before fuel (n / 10) limit ((48 + n % 10) ∷ acc) (ground arith)
          (omega arith)
        ∙ digit_step limit (n / 10) (n % 10) acc (omega arith) (omega arith)
        ∙ rw whole refl)
]

-- A printed number reads back, if it is within the limit.
pub parse_digits-decimal : (n limit : ℕ) → n ≤ limit → parse_digits limit 0 (decimal n) ≡ some n
unfolding decimal
parse_digits-decimal n limit fits = parse_digits-digits_before (suc n) n limit [] (omega arith) fits

abbrev pub IsDigits : Text → Type 0
IsDigits = All (λ c. is_digit c ≡ true)

digits_before-IsDigits :
    (fuel n : ℕ) (acc : Text) → n < fuel → IsDigits acc → IsDigits (digits_before fuel n acc)
unfolding digits_before
digits_before-IsDigits zero n acc h ds = elim h [ ]
digits_before-IsDigits (suc fuel) n acc h ds = elim (Bool-cases (ltb n 10)) [
  | inl small ↦ rw small (ground arith, ds)
  | inr big ↦
      rw big (
        digits_before-IsDigits fuel (n / 10) ((48 + n % 10) ∷ acc) (ground arith)
          (ground arith, ds))
]

digits_before-ne-nil : (fuel n : ℕ) (acc : Text) → n < fuel → digits_before fuel n acc ≢ []
unfolding digits_before
digits_before-ne-nil zero n acc h e = elim h [ ]
digits_before-ne-nil (suc fuel) n acc h e = elim (Bool-cases (ltb n 10)) [
  | inl small ↦ let no_digit = rw small at e in cc
  | inr big ↦ digits_before-ne-nil fuel (n / 10) ((48 + n % 10) ∷ acc) (ground arith) (rw big at e)
]

pub decimal-IsDigits : (n : ℕ) → IsDigits (decimal n)
unfolding decimal
decimal-IsDigits n = digits_before-IsDigits (suc n) n [] (omega arith) tt

pub decimal-ne-nil : (n : ℕ) → decimal n ≢ []
unfolding decimal
decimal-ne-nil n = digits_before-ne-nil (suc n) n [] (omega arith)

parse_unsigned-IsDigits :
    (limit : ℕ) (t : Text) → IsDigits t → t ≢ [] → parse_unsigned limit t ≡ parse_digits limit 0 t
parse_unsigned-IsDigits limit [] ds ne = absurd (ne refl)
parse_unsigned-IsDigits limit (c ∷ cs) ds ne =
    let unsigned : (c == 43) ≡ false = ground (arith, ds.0) in rw unsigned refl

-- What `Display` prints, `parse` reads, up to the type's greatest value.
pub parse_unsigned-decimal : (n limit : ℕ) → n ≤ limit → parse_unsigned limit (decimal n) ≡ some n
parse_unsigned-decimal n limit fits =
    parse_unsigned-IsDigits limit (decimal n) (decimal-IsDigits n) (decimal-ne-nil n)
    ∙ parse_digits-decimal n limit fits

parse_digits-le :
    (limit n m : ℕ) (t : Text) → n ≤ limit → parse_digits limit n t ≡ some m → m ≤ limit
parse_digits-le limit n m [] h e = ground arith
parse_digits-le limit n m (c ∷ cs) h e =
    elim (Bool-cases (is_digit c && leb (n * 10 + (c - 48)) limit)) [
      | inl fits ↦ parse_digits-le limit (n * 10 + (c - 48)) m cs (ground arith) (rw fits at e)
      | inr other ↦ let never = rw other at e in cc
    ]

some_digits-le : (limit m : ℕ) (t : Text) → some_digits limit t ≡ some m → m ≤ limit
some_digits-le limit m [] e = cc
some_digits-le limit m (c ∷ cs) e = parse_digits-le limit 0 m (c ∷ cs) (omega arith) e

-- A number that is read is within the limit.
pub parse_unsigned-le : (limit m : ℕ) (t : Text) → parse_unsigned limit t ≡ some m → m ≤ limit
parse_unsigned-le limit m [] e = cc
parse_unsigned-le limit m (c ∷ cs) e = elim (Bool-cases (c == 43)) [
  | inl plus ↦ some_digits-le limit m cs (rw plus at e)
  | inr other ↦ some_digits-le limit m (c ∷ cs) (rw other at e)
]
