-- ===== src/Message/StatusCode/Conversions.antt =====
-- The conversions of a status code, and the classes that the match patterns cut out.
use rssip.Prelude.{
  ℕ, ◌+◌, ◌/◌, ◌%◌, ◌≡◌, ◌↔◌, refl, sym, ap, List, [], ◌∷◌, Option, none, some, Text, codes,
  text_eq, ◌==◌, within, within_below, if◌then◌else◌, Bool-cases, All, arith, inl, inr, ◌∙◌, String,
  map,
}
use rssip.Message.StatusCode.{
  StatusCode, as_u16, from_u16_arms, try_from_arms, find_code, find_text, from_u16, try_from,
  is_final,
}

-- Every arm of `from_u16` pairs a code with its own discriminant.
abbrev Matches : ℕ × StatusCode → Type 0
Matches (v, c) = as_u16 c ≡ v

arms_match : All Matches from_u16_arms
unfolding as_u16
arms_match = omega arith

find_code_sound :
    (n : ℕ) (arms : List (ℕ × StatusCode)) (c : StatusCode)
    → All Matches arms
    → find_code n arms ≡ some c
    → n ≡ as_u16 c
unfolding find_code
find_code_sound n [] c h e = cc
find_code_sound n ((v, d) ∷ arms) c h e = elim (Bool-cases (n == v)) [
  | inl fits ↦ ground (arith, h.0, rw fits at e)
  | inr other ↦ find_code_sound n arms c h.1 (rw other at e)
]

from_u16-as_u16 : (c : StatusCode) → from_u16 (as_u16 c) ≡ some c
unfolding from_u16 as_u16
from_u16-as_u16 StatusCode.trying = refl
from_u16-as_u16 _ = refl

-- A number converts to a status code exactly when it is that code's discriminant.
pub from_u16-eq-some_iff : (n : ℕ) (c : StatusCode) → (from_u16 n ≡ some c) ↔ (n ≡ as_u16 c)
unfolding from_u16
from_u16-eq-some_iff n c =
    (λ e. find_code_sound n from_u16_arms c arms_match e, λ e. rw e (from_u16-as_u16 c))

-- The three decimal digits of a number below 1000.
abbrev pub three_digits : ℕ → Text
three_digits n = (48 + n / 100) ∷ (48 + n / 10 % 10) ∷ (48 + n % 10) ∷ []

three_digits-injective : (n m : ℕ) → text_eq (three_digits n) (three_digits m) ≡ (n == m)
three_digits-injective n m = ground arith

-- The first entry of a table keyed by byte strings.
find_key : Text → List (Text × StatusCode) → Option StatusCode
find_key t [] = none
find_key t ((k, c) ∷ arms) = if text_eq t k then some c else find_key t arms

abbrev by_literal : List (String × StatusCode) → List (Text × StatusCode)
by_literal = map (λ (s, c). (codes s, c))

abbrev by_number : List (ℕ × StatusCode) → List (Text × StatusCode)
by_number = map (λ (v, c). (three_digits v, c))

same_arms : by_literal try_from_arms ≡ by_number from_u16_arms
same_arms = refl

find_text-find_key :
    (t : Text) (arms : List (String × StatusCode)) → find_text t arms ≡ find_key t (by_literal arms)
unfolding find_text find_key
find_text-find_key t [] = refl
find_text-find_key t ((s, c) ∷ arms) = rw (find_text-find_key t arms)

find_code-find_key :
    (n : ℕ) (arms : List (ℕ × StatusCode))
    → find_code n arms ≡ find_key (three_digits n) (by_number arms)
unfolding find_code find_key
find_code-find_key n [] = refl
find_code-find_key n ((v, c) ∷ arms) = rw (three_digits-injective n v, find_code-find_key n arms)

-- Reading the three decimal digits of a number, as a status line holds them, gives what the
-- number itself converts to: the same status code, or the error.
pub try_from-three_digits : (n : ℕ) → try_from (three_digits n) ≡ from_u16 n
unfolding try_from from_u16
try_from-three_digits n =
    find_text-find_key (three_digits n) try_from_arms
    ∙ ap (find_key (three_digits n)) same_arms
    ∙ sym (find_code-find_key n from_u16_arms)

abbrev pub ClassesAgree : StatusCode → Type 0
ClassesAgree c =
    (within_below 200 299 (as_u16 c) ≡ within 200 299 (as_u16 c))
    × (within_below 300 699 (as_u16 c) ≡ within 300 699 (as_u16 c))
    × (is_final c ≡ within 200 699 (as_u16 c))

-- The half-open patterns `200..299` and `300..699` of the transactions leave out no status code,
-- and the final codes are those from 200 to 699.
pub classes_agree : (c : StatusCode) → ClassesAgree c
unfolding as_u16 is_final
classes_agree StatusCode.trying = (refl, refl, refl)
classes_agree _ = (refl, refl, refl)
