-- ===== src/Scanner/Positions.antt =====
-- The invariant of a scanner: its index stays inside the buffer, and its position is that of the
-- bytes in front of the index.
use rssip.Prelude.{
  ℕ, zero, suc, ◌-◌, ◌≤◌, ◌≡◌, inl, inr, refl, ap, sym, ◌∙◌, Bool, ◌==◌, Text, [], ◌∷◌, ◌++◌,
  Option, none, some, length, take, drop, is_digit, arith, Bool-cases, Option-cases,
}
use rssip.Scanner.{
  Scanner, new, start, remaining, peek, bump, bump_peeked, scan, advance_n, take_while, scan_while,
  scan_zip, must_scan_slice, must_read, must_read_byte, scan_byte_if, scan_if, scan_if_eq,
  scan_newline, scan_number,
}
use rssip.Scanner.Consumed.{
  position_after, advanced, rest, Consumes, Consumes-nil, Consumes-bump, Consumes-append, drop-add,
  take-add, length-drop-append, get_elem?-drop, position_after-append, take_while-split,
  read_while_lem,
}

pub record IsValid (s : Scanner) : Type 0 where
  pub whole : s.len ≡ length s.buffer
  pub inside : s.index ≤ length s.buffer
  pub placed : s.position ≡ position_after start (take s.index s.buffer)

pub new-IsValid : (buffer : Text) → IsValid (new buffer)
unfolding new
new-IsValid buffer = record { whole = refl; inside = omega arith; placed = refl }

pub Consumes-IsValid : (s t : Scanner) (bytes : Text) → IsValid s → Consumes s bytes t → IsValid t
Consumes-IsValid s t bytes v (e, h) =
    let split : drop s.index s.buffer ≡ bytes ++ rest t = h in
    rw e (record {
      whole = v.whole;
      inside = length-drop-append s.buffer s.index bytes (rest t) split v.inside;
      placed =
          ap (λ p. position_after p bytes) v.placed
          ∙ sym (position_after-append start (take s.index s.buffer) bytes)
          ∙ ap (position_after start) (sym (take-add s.buffer s.index bytes (rest t) split));
    })

take_rest : (xs : Text) (i : ℕ) → take (length xs - i) (drop i xs) ≡ drop i xs
take_rest [] zero = refl
take_rest [] (suc i) = let same : 0 - suc i ≡ 0 = omega arith in rw same refl
take_rest (x ∷ xs) zero =
    let same : suc (length xs) - 0 ≡ suc (length xs - 0) = omega arith in
    rw same (ap (λ (t : Text). x ∷ t) (take_rest xs zero))
take_rest (x ∷ xs) (suc i) =
    let same : suc (length xs) - suc i ≡ length xs - i = omega arith in rw same (take_rest xs i)

pub remaining-rest : (s : Scanner) → IsValid s → remaining s ≡ rest s
remaining-rest s v = rw v.whole (take_rest s.buffer s.index)

-- An operation consumes some run of bytes.
abbrev pub ConsumesSome : Scanner → Scanner → Type 0
ConsumesSome s t = (bytes : Text) × Consumes s bytes t

some_nil : (s : Scanner) → ConsumesSome s s
some_nil s = ([], Consumes-nil s)

advanced-Consumes :
    (s : Scanner) (bytes after : Text)
    → rest s ≡ bytes ++ after
    → Consumes s bytes (advanced bytes s)
advanced-Consumes s bytes after e =
    (refl, e ∙ ap (λ t. bytes ++ t) (sym (drop-add s.buffer s.index bytes after e)))

bump_peeked-ConsumesSome :
    (s : Scanner) (o : Option ℕ) → peek s ≡ o → ConsumesSome s (bump_peeked o s)
bump_peeked-ConsumesSome s none e = some_nil s
bump_peeked-ConsumesSome s (some c) e = (c ∷ [], Consumes-bump s c e)

scan_byte_if-ConsumesSome :
    (p : ℕ → Bool) (s : Scanner) (o : Option ℕ) → peek s ≡ o → ConsumesSome s (scan_byte_if p o s).1
scan_byte_if-ConsumesSome p s none e = some_nil s
scan_byte_if-ConsumesSome p s (some c) e = elim (Bool-cases (p c)) [
  | inl fits ↦ rw fits (c ∷ [], Consumes-bump s c e)
  | inr other ↦ rw other (some_nil s)
]

must_read_byte-ConsumesSome :
    (b : ℕ) (s : Scanner) (o : Option ℕ) → peek s ≡ o → ConsumesSome s (must_read_byte b o s).1
must_read_byte-ConsumesSome b s none e = some_nil s
must_read_byte-ConsumesSome b s (some c) e = elim (Bool-cases (b == c)) [
  | inl fits ↦ rw fits (c ∷ [], Consumes-bump s c e)
  | inr other ↦ rw other (some_nil s)
]

advance_n-ConsumesSome : (n : ℕ) (s : Scanner) → ConsumesSome s (advance_n n s)
unfolding advance_n
advance_n-ConsumesSome zero s = some_nil s
advance_n-ConsumesSome (suc n) s = elim (Option-cases (peek s)) [
  | inl e ↦ rw (e, advance_n) (some_nil s)
  | inr (c, e) ↦
      let (bytes, more) = advance_n-ConsumesSome n (bump c s) in
      rw (e, advance_n)
        (
          c ∷ bytes,
          Consumes-append s (bump c s) (advance_n n (bump c s)) (c ∷ []) bytes (Consumes-bump s c e)
              more,
        )
]

pub scan_while_lem :
    (p : ℕ → Bool) (s : Scanner)
    → scan_while p s ≡ (take_while p (remaining s), advanced (take_while p (remaining s)) s)
unfolding scan_while
scan_while_lem p s = read_while_lem p (remaining s) s

scan_while-ConsumesSome :
    (p : ℕ → Bool) (s : Scanner) → IsValid s → ConsumesSome s (scan_while p s).1
scan_while-ConsumesSome p s v =
    let bytes = take_while p (remaining s) in
    let (after, e) = take_while-split p (remaining s) in
    rw (scan_while_lem p s) (bytes, advanced-Consumes s bytes after (sym (remaining-rest s v) ∙ e))

scan_zip-ConsumesSome :
    (xs expected : Text) (s : Scanner) → rest s ≡ xs → ConsumesSome s (scan_zip xs expected s).1
unfolding scan_zip
scan_zip-ConsumesSome [] expected s e = some_nil s
scan_zip-ConsumesSome (c ∷ xs) [] s e = some_nil s
scan_zip-ConsumesSome (c ∷ xs) (b ∷ expected) s e = elim (Bool-cases (c == b)) [
  | inl fits ↦
      let (here, there) = get_elem?-drop s.buffer s.index c xs e in
      let behind : rest (bump c s) ≡ xs = unfold bump in there in
      let (bytes, more) = scan_zip-ConsumesSome xs expected (bump c s) behind in
      rw fits (
        c ∷ bytes,
        Consumes-append s (bump c s) (scan_zip xs expected (bump c s)).1 (c ∷ []) bytes
            (Consumes-bump s c here) more,
      )
  | inr other ↦ rw other (some_nil s)
]

-- The operations that move a scanner.
pub data Op : Type 0 where
  next newline : Op
  advance read_byte number : ℕ → Op
  slice : Text → Op
  read_if run_of : (ℕ → Bool) → Op

abbrev pub run : Op → Scanner → Scanner
run next s = (scan s).1
run newline s = (scan_newline s).1
run (advance n) s = advance_n n s
run (read_byte b) s = (must_read b s).1
run (number limit) s = (scan_number limit s).1
run (slice expected) s = (must_scan_slice expected s).1
run (read_if p) s = (scan_if p s).1
run (run_of p) s = (scan_while p s).1

scan_if-ConsumesSome : (p : ℕ → Bool) (s : Scanner) → ConsumesSome s (scan_if p s).1
unfolding scan_if
scan_if-ConsumesSome p s = scan_byte_if-ConsumesSome p s (peek s) refl

scan_newline-ConsumesSome : (s : Scanner) → ConsumesSome s (scan_newline s).1
unfolding scan_newline
scan_newline-ConsumesSome s =
    let s1 = (scan_if_eq 13 s).1 in
    let (a, first) = scan_if-ConsumesSome (λ b. b == 13) s in
    let (b, second) = scan_if-ConsumesSome (λ b. b == 10) s1 in
    (a ++ b, Consumes-append s s1 (scan_if_eq 10 s1).1 a b first second)

pub run-ConsumesSome : (op : Op) (s : Scanner) → IsValid s → ConsumesSome s (run op s)
unfolding scan must_read scan_number must_scan_slice
run-ConsumesSome next s v = bump_peeked-ConsumesSome s (peek s) refl
run-ConsumesSome newline s v = scan_newline-ConsumesSome s
run-ConsumesSome (advance n) s v = advance_n-ConsumesSome n s
run-ConsumesSome (read_byte b) s v = must_read_byte-ConsumesSome b s (peek s) refl
run-ConsumesSome (number limit) s v = scan_while-ConsumesSome (λ b. is_digit b) s v
run-ConsumesSome (slice expected) s v = scan_zip-ConsumesSome (rest s) expected s refl
run-ConsumesSome (read_if p) s v = scan_if-ConsumesSome p s
run-ConsumesSome (run_of p) s v = scan_while-ConsumesSome p s v
