-- ===== src/Scanner/Forward.antt =====
-- rssip-utils/src/scanner/mod.rs: parsers on the scanner that never move back, and chains of them.
use rssip.Prelude.{ℕ, ◌-◌, ◌==◌, inl, inr, arith}
use rssip.Error.{Result, ◌>>=◌, Ensures, Ensures-bind}
use rssip.Scanner.{Scanner, bump}
use rssip.Scanner.Strings.{read_behind}
use rssip.Scanner.Within.{Within, Leaves, Leaves-le, scan_if-Within}

-- A parser that never moves back and does not panic.
abbrev pub Forward {ℓ} : {A : Type ℓ} → (Scanner → Result (A × Scanner)) → Type 0
Forward p = (n : ℕ) (s : Scanner) → Within n s → Leaves n (p s)

-- The next parser of a chain.
abbrev pub chain {ℓ κ} :
    {A : Type ℓ} {B : Type κ} (n : ℕ) (m : Result (A × Scanner))
    (f : A × Scanner → Result (B × Scanner))
    → Leaves n m
    → ((r : A × Scanner) → Within n r.1 → Leaves n (f r))
    → Leaves n (m >>= f)
chain n m f = Ensures-bind (λ (a, s). Within n s) (λ (b, s). Within n s) m f

-- A step between two parsers that reads nothing.
abbrev pub between {ℓ κ} :
    {A : Type ℓ} {B : Type κ} (n : ℕ) (m : Result A) (f : A → Result (B × Scanner))
    → Ensures (λ _. Unit) m
    → ((a : A) → Leaves n (f a))
    → Leaves n (m >>= f)
between n m f calm later = Ensures-bind (λ _. Unit) (λ (b, s). Within n s) m f calm (λ a _. later a)

pub read_behind-Forward {ℓ} :
    {A : Type ℓ} (byte : ℕ) (read : Scanner → Result (A × Scanner))
    → Forward read
    → Forward (read_behind byte read)
unfolding read_behind
read_behind-Forward byte read forward n s w = elim (scan_if-Within (λ b. b == byte) n s w) [
  | inl none_left ↦ rw none_left w
  | inr (c, found, some_left, w) ↦ rw found (
      Leaves-le (n - 1) n _ (omega arith)
        (chain (n - 1) (read (bump c s)) _ (forward (n - 1) (bump c s) w) (λ r w. w)))
]
