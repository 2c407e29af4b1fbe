-- ===== src/Scanner/Prefixes.antt =====
-- What the loops of the scanner read, and when an expected text is accepted.
use rssip.Prelude.{
  ℕ, ◌≡◌, ◌↔◌, ◌⊎◌, inl, inr, refl, ap, sym, ◌∙◌, Bool, true, false, Text, starts_with, [], ◌∷◌,
  ◌++◌, All, arith, Bool-cases,
}
use rssip.Scanner.{
  Scanner, Scanned, done, failed, remaining, bump, take_while, peek_while, scan_while, scan_zip,
  must_scan_slice,
}
use rssip.Scanner.Consumed.{advanced, rest, drop-add}
use rssip.Scanner.Positions.{IsValid, remaining-rest, scan_while_lem}

-- The first byte, if there is one, fails the test.
abbrev pub Stops : (ℕ → Bool) → Text → Type 0
Stops p [] = Unit
Stops p (c ∷ text) = p c ≡ false

take_while-Stops :
    (p : ℕ → Bool) (xs : Text)
    → (after : Text) × (xs ≡ take_while p xs ++ after)
      × All (λ c. p c ≡ true) (take_while p xs)
      × Stops p after
unfolding take_while
take_while-Stops p [] = ([], refl, tt, tt)
take_while-Stops p (c ∷ xs) = elim (Bool-cases (p c)) [
  | inl fits ↦
      let (after, e, all, stops) = take_while-Stops p xs in
      rw fits (after, ap (λ (t : Text). c ∷ t) e, (fits, all), stops)
  | inr other ↦ rw other (c ∷ xs, refl, tt, other)
]

-- Reading while a test holds gives what peeking with it gives, and takes exactly that off what
-- remains: the longest run of bytes that pass the test. The buffer is split, nothing is lost.
pub scan_while-peek_while :
    (p : ℕ → Bool) (s : Scanner)
    → IsValid s
    → let (bytes, s') = scan_while p s in
      (bytes ≡ peek_while p s)
      × (rest s ≡ bytes ++ rest s')
      × All (λ c. p c ≡ true) bytes
      × Stops p (rest s')
unfolding peek_while
scan_while-peek_while p s v =
    let (after, e, all, stops) = take_while-Stops p (remaining s) in
    let whole : rest s ≡ take_while p (remaining s) ++ after = sym (remaining-rest s v) ∙ e in
    let behind : rest (advanced (take_while p (remaining s)) s) ≡ after =
      drop-add s.buffer s.index (take_while p (remaining s)) after whole in
    rw (scan_while_lem p s) (
      refl,
      whole ∙ ap (λ (t : Text). take_while p (remaining s) ++ t) (sym behind),
      all,
      rw behind stops,
    )

-- The outcome of the loop of `must_scan_slice`.
abbrev pub succeeds {ℓ} : {A : Type ℓ} → Scanned A → Bool
succeeds (done a) = true
succeeds (failed e) = false

scan_zip-succeeds :
    (xs expected : Text) (s : Scanner)
    → (succeeds (scan_zip xs expected s).0 ≡ true)
      ↔ ((starts_with xs expected ≡ true) ⊎ (starts_with expected xs ≡ true))
unfolding scan_zip
scan_zip-succeeds [] [] s = (λ h. inl refl, λ h. refl)
scan_zip-succeeds [] (b ∷ expected) s = (λ h. inr refl, λ h. refl)
scan_zip-succeeds (c ∷ xs) [] s = (λ h. inl refl, λ h. refl)
scan_zip-succeeds (c ∷ xs) (b ∷ expected) s =
    ground (arith, scan_zip-succeeds xs expected (bump c s))

-- Scanning an expected text succeeds exactly when what remains starts with it, or is itself only a
-- beginning of it: a truncated input is accepted.
pub must_scan_slice-succeeds :
    (expected : Text) (s : Scanner)
    → (succeeds (must_scan_slice expected s).0 ≡ true)
      ↔ ((starts_with (rest s) expected ≡ true) ⊎ (starts_with expected (rest s) ≡ true))
unfolding must_scan_slice
must_scan_slice-succeeds expected s = scan_zip-succeeds (rest s) expected s
