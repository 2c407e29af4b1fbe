-- ===== src/Scanner/Within.antt =====
-- rssip-utils/src/scanner/mod.rs: how many bytes an operation leaves.
use rssip.Prelude.{
  ℕ, suc, ◌-◌, ◌≤◌, ◌<◌, [], ◌∷◌, ◌≡◌, ◌⊎◌, inl, inr, refl, ap, Bool, Text, none, some, length,
  length-append, arith, Bool-cases, Option-cases,
}
use rssip.Error.{Error, Result, ok, err, panic, Ensures}
use rssip.Scanner.{
  Scanner, Scanned, done, failed, new, peek, bump, next_byte, advance_n, scan_while, scan_if,
  scan_number, must_read, scan,
}
use rssip.Scanner.Consumed.{rest, Consumes-bump}
use rssip.Scanner.Positions.{
  IsValid, new-IsValid, ConsumesSome, Consumes-IsValid, Op, run_of, advance, number, read_byte, run,
  run-ConsumesSome,
}
use rssip.Scanner.Strings.{scan_while_as_str, or_err}

-- At most `n` bytes are left.
abbrev pub Within : ℕ → Scanner → Type 0
Within n s = IsValid s × (length (rest s) ≤ n)

-- A parser does not panic, and leaves at most `n` bytes.
abbrev pub Leaves {ℓ} : {A : Type ℓ} → ℕ → Result (A × Scanner) → Type 0
Leaves n m = Ensures (λ (a, s). Within n s) m

ConsumesSome-Within : (n : ℕ) (s t : Scanner) → ConsumesSome s t → Within n s → Within n t
ConsumesSome-Within n s t (bytes, c) (v, h) = (
  Consumes-IsValid s t bytes v c,
  omega (arith, ap (λ (x : Text). length x) c.1, length-append bytes (rest t)),
)

pub new-Within : (text : Text) → Within (length text) (new text)
unfolding new
new-Within text = (new-IsValid text, omega arith)

pub run-Within : (op : Op) (n : ℕ) (s : Scanner) → Within n s → Within n (run op s)
run-Within op n s w = ConsumesSome-Within n s (run op s) (run-ConsumesSome op s w.0) w

pub scan_while-Within :
    (p : ℕ → Bool) (n : ℕ) (s : Scanner) → Within n s → Within n (scan_while p s).1
scan_while-Within p = run-Within (run_of p)

pub advance_n-Within : (k n : ℕ) (s : Scanner) → Within n s → Within n (advance_n k s)
advance_n-Within k = run-Within (advance k)

pub or_err-Leaves {ℓ} :
    {A : Type ℓ} (e : Error) (n : ℕ) (outcome : Scanned A × Scanner)
    → Within n outcome.1
    → Leaves n (or_err e outcome)
or_err-Leaves e n (done a, s) w = w
or_err-Leaves e n (failed f, s) w = tt

pub scan_number-Leaves :
    (e : Error) (limit n : ℕ) (s : Scanner) → Within n s → Leaves n (or_err e (scan_number limit s))
scan_number-Leaves e limit n s w =
    or_err-Leaves e n (scan_number limit s) (run-Within (number limit) n s w)

pub must_read-Leaves :
    (e : Error) (c n : ℕ) (s : Scanner) → Within n s → Leaves n (or_err e (must_read c s))
must_read-Leaves e c n s w = or_err-Leaves e n (must_read c s) (run-Within (read_byte c) n s w)

pub scan_while_as_str-Leaves :
    (is_utf8 : Text → Bool) (e : Error) (p : ℕ → Bool) (n : ℕ) (s : Scanner)
    → Within n s
    → Leaves n (or_err e (scan_while_as_str is_utf8 p s))
unfolding scan_while_as_str
scan_while_as_str-Leaves is_utf8 e p n s w =
    or_err-Leaves e n (scan_while_as_str is_utf8 p s) (scan_while-Within p n s w)

bump-Within : (n c : ℕ) (s : Scanner) → Within (suc n) s → peek s ≡ some c → Within n (bump c s)
bump-Within n c s (v, h) e =
    let taken = Consumes-bump s c e in
    (
      Consumes-IsValid s (bump c s) (c ∷ []) v taken,
      omega (arith, ap (λ (x : Text). length x) taken.1),
    )

-- Reading a byte that is there takes it off.
pub next_byte-Leaves :
    (e : Error) (n : ℕ) (s : Scanner) → Within (suc n) s → Leaves n (or_err e (next_byte s))
unfolding next_byte scan
next_byte-Leaves e n s w = elim (Option-cases (peek s)) [
  | inl h ↦ rw h tt
  | inr (c, h) ↦ rw h (bump-Within n c s w h)
]

-- Reading a byte that passes a test takes it off, or nothing is read.
pub scan_if-Within :
    (p : ℕ → Bool) (n : ℕ) (s : Scanner)
    → Within n s
    → (scan_if p s ≡ (none, s))
      ⊎ ((c : ℕ) × (scan_if p s ≡ (some c, bump c s)) × (0 < n) × Within (n - 1) (bump c s))
unfolding scan_if
scan_if-Within p n s w = elim (Option-cases (peek s)) [
  | inl h ↦ inl (rw h refl)
  | inr (c, h) ↦ elim (Bool-cases (p c)) [
    | inl fits ↦
        let taken = Consumes-bump s c h in
        let some_left : 0 < n = omega (arith, ap (λ (x : Text). length x) taken.1, w.1) in
        let same : suc (n - 1) ≡ n = omega arith in
        inr (c, rw (h, fits) refl, some_left, bump-Within (n - 1) c s (rw same w) h)
    | inr other ↦ inl (rw (h, other) refl)
  ]
]

pub Leaves-le {ℓ} :
    {A : Type ℓ} (m n : ℕ) (r : Result (A × Scanner)) → m ≤ n → Leaves m r → Leaves n r
Leaves-le m n (ok (a, s)) h (v, left) = (v, omega arith)
Leaves-le m n (err e) h w = tt
Leaves-le m n panic h w = w
