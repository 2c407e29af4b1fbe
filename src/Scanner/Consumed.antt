-- ===== src/Scanner/Consumed.antt =====
-- Every operation of the scanner consumes a run of the bytes that remain.
use mathlib.Core.List.{append_assoc}
use rssip.Prelude.{
  ℕ, zero, suc, ◌+◌, ◌≤◌, ◌≡◌, inl, inr, refl, ap, sym, ◌∙◌, Bool, Text, [], ◌∷◌, ◌++◌, none, some,
  length, length-append, take, drop, get_elem?, arith, Bool-cases,
}
use rssip.Scanner.{Position, Scanner, peek, next_position, bump, read_while, take_while}

-- The position behind a run of bytes.
abbrev pub position_after : Position → Text → Position
position_after p [] = p
position_after p (c ∷ bytes) = position_after (next_position p c) bytes

-- The scanner behind a run of bytes.
abbrev pub advanced : Text → Scanner → Scanner
advanced bytes s = record s {
  index = s.index + length bytes;
  position = position_after s.position bytes;
}

abbrev pub rest : Scanner → Text
rest s = drop s.index s.buffer

-- The scanner `t` stands behind `bytes`, which came next for `s`.
abbrev pub Consumes : Scanner → Text → Scanner → Type 0
Consumes s bytes t = (t ≡ advanced bytes s) × (rest s ≡ bytes ++ rest t)

pub advanced-nil : (s : Scanner) → advanced [] s ≡ s
advanced-nil s = ground arith

pub advanced-bump :
    (c : ℕ) (bytes : Text) (s : Scanner) → advanced bytes (bump c s) ≡ advanced (c ∷ bytes) s
unfolding bump
advanced-bump c bytes s = ground arith

pub drop-get_elem? :
    (xs : Text) (i c : ℕ) → get_elem? xs i ≡ some c → drop i xs ≡ c ∷ drop (suc i) xs
drop-get_elem? [] i c e = cc
drop-get_elem? (x ∷ xs) zero c e = ground arith
drop-get_elem? (x ∷ xs) (suc i) c e = drop-get_elem? xs i c e

pub get_elem?-drop :
    (xs : Text) (i c : ℕ) (ys : Text)
    → drop i xs ≡ c ∷ ys
    → (get_elem? xs i ≡ some c) × (drop (suc i) xs ≡ ys)
get_elem?-drop [] zero c ys e = cc
get_elem?-drop [] (suc i) c ys e = cc
get_elem?-drop (x ∷ xs) zero c ys e = ground arith
get_elem?-drop (x ∷ xs) (suc i) c ys e = get_elem?-drop xs i c ys e

pub get_elem?-none : (xs : Text) (i : ℕ) → get_elem? xs i ≡ none → drop i xs ≡ []
get_elem?-none [] zero e = refl
get_elem?-none [] (suc i) e = refl
get_elem?-none (x ∷ xs) zero e = cc
get_elem?-none (x ∷ xs) (suc i) e = get_elem?-none xs i e

pub drop-add :
    (xs : Text) (i : ℕ) (bytes more : Text)
    → drop i xs ≡ bytes ++ more
    → drop (i + length bytes) xs ≡ more
drop-add xs i [] more e = let same : i + 0 ≡ i = omega arith in rw same e
drop-add xs i (c ∷ bytes) more e =
    let (_, later) = get_elem?-drop xs i c (bytes ++ more) e in
    let same : i + suc (length bytes) ≡ suc i + length bytes = omega arith in
    rw same (drop-add xs (suc i) bytes more later)

pub take-add :
    (xs : Text) (i : ℕ) (bytes more : Text)
    → drop i xs ≡ bytes ++ more
    → take (i + length bytes) xs ≡ take i xs ++ bytes
take-add xs zero [] more e = refl
take-add [] zero (c ∷ bytes) more e = cc
take-add (x ∷ xs) zero (c ∷ bytes) more e =
    let ih = take-add xs zero bytes more (cc) in
    let same : 0 + suc (length bytes) ≡ suc (0 + length bytes) = omega arith in
    rw same (ground (arith, ih))
take-add [] (suc i) [] more e = ground arith
take-add [] (suc i) (c ∷ bytes) more e = cc
take-add (x ∷ xs) (suc i) bytes more e =
    let same : suc i + length bytes ≡ suc (i + length bytes) = omega arith in
    rw same (ap (λ (t : Text). x ∷ t) (take-add xs i bytes more e))

pub length-drop-append :
    (xs : Text) (i : ℕ) (bytes more : Text)
    → drop i xs ≡ bytes ++ more
    → i ≤ length xs
    → i + length bytes ≤ length xs
length-drop-append xs zero bytes more e h =
    omega (arith, ap (λ (t : Text). length t) e, length-append bytes more)
length-drop-append [] (suc i) bytes more e h = absurd (omega arith)
length-drop-append (x ∷ xs) (suc i) bytes more e h =
    omega (arith, length-drop-append xs i bytes more e (omega arith))

pub Consumes-nil : (s : Scanner) → Consumes s [] s
Consumes-nil s = (sym (advanced-nil s), refl)

pub Consumes-bump : (s : Scanner) (c : ℕ) → peek s ≡ some c → Consumes s (c ∷ []) (bump c s)
unfolding bump
Consumes-bump s c e = (ground arith, drop-get_elem? s.buffer s.index c e)

pub position_after-append :
    (p : Position) (a b : Text) → position_after p (a ++ b) ≡ position_after (position_after p a) b
position_after-append p [] b = refl
position_after-append p (c ∷ a) b = position_after-append (next_position p c) a b

advanced-append : (a b : Text) (s : Scanner) → advanced b (advanced a s) ≡ advanced (a ++ b) s
advanced-append a b s = ground (arith, length-append a b, position_after-append s.position a b)

pub Consumes-append :
    (s t u : Scanner) (a b : Text) → Consumes s a t → Consumes t b u → Consumes s (a ++ b) u
Consumes-append s t u a b (e, h) (e', h') = (
  e' ∙ ap (λ x. advanced b x) e ∙ advanced-append a b s,
  h ∙ ap (λ x. a ++ x) h' ∙ sym (append_assoc a b (rest u)),
)

-- The bytes that a loop reads, and where it stops.
pub take_while-split : (p : ℕ → Bool) (xs : Text) → (after : Text) × (xs ≡ take_while p xs ++ after)
unfolding take_while
take_while-split p [] = ([], refl)
take_while-split p (c ∷ xs) = elim (Bool-cases (p c)) [
  | inl fits ↦
      let (after, e) = take_while-split p xs in (after, rw fits (ap (λ (t : Text). c ∷ t) e))
  | inr other ↦ (c ∷ xs, rw other refl)
]

pub read_while_lem :
    (p : ℕ → Bool) (xs : Text) (s : Scanner)
    → read_while p xs s ≡ (take_while p xs, advanced (take_while p xs) s)
unfolding read_while take_while
read_while_lem p [] s = ap (λ (t : Scanner). ([], t)) (sym (advanced-nil s))
read_while_lem p (c ∷ xs) s = elim (Bool-cases (p c)) [
  | inl fits ↦
      rw (fits, read_while_lem p xs (bump c s))
        (ap (λ (t : Scanner). (c ∷ take_while p xs, t)) (advanced-bump c (take_while p xs) s))
  | inr other ↦ rw other (ap (λ (t : Scanner). ([], t)) (sym (advanced-nil s)))
]
