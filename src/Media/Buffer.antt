-- ===== src/Media/Buffer.antt =====
-- What the packet parsers use of the trait `bytes::Buf`, and of `bytes::BufMut`.
use rssip.Prelude.{
  ℕ, zero, suc, ◌+◌, ◌*◌, ◌/◌, ◌%◌, ◌^◌, ◌≤◌, ◌<◌, ◌≡◌, inl, inr, refl, ap, ◌∙◌, Text, [], ◌∷◌,
  ◌++◌, Option, none, some, length, length-append, take, drop, ltb, Bool-cases, ◌⊎◌, arith,
}
use rssip.Error.{io, Result, ok, err, panic, ◌>>=◌}

-- A buffer has a view, the bytes that it still gives. Reading takes the first `n` of them, and is
-- refused where fewer remain; the methods `get_…` then panic and the methods `try_…` return an error.
pub record Buf : Type 1 where
  pub B : Type 0
  pub view : B → Text
  pub read : ℕ → B → Option (Text × B)
  pub read_enough :
      (n : ℕ) (b : B)
      → n ≤ length (view b)
      → (r : B) × (read n b ≡ some (take n (view b), r)) × (view r ≡ drop n (view b))
  pub read_short : (n : ℕ) (b : B) → length (view b) < n → read n b ≡ none

-- The number with the bytes, the highest first.
abbrev pub big_endian : ℕ → Text → ℕ
big_endian n [] = n
big_endian n (c ∷ bytes) = big_endian (n * 256 + c) bytes

abbrev pub or_panic {ℓ} : {A : Type ℓ} → Option A → Result A
or_panic none = panic
or_panic (some a) = ok a

abbrev pub or_io {ℓ} : {A : Type ℓ} → Option A → Result A
or_io none = err io
or_io (some a) = ok a

-- `put_u16` and `put_u32` of `bytes::BufMut`.
abbrev pub put_u16 : ℕ → Text
put_u16 n = (n / 256 % 256) ∷ (n % 256) ∷ []

abbrev pub put_u32 : ℕ → Text
put_u32 n = (n / 2 ^ 24 % 256) ∷ (n / 2 ^ 16 % 256) ∷ (n / 256 % 256) ∷ (n % 256) ∷ []

pub big_endian-put_u16 : (n : ℕ) → n < 2 ^ 16 → big_endian 0 (put_u16 n) ≡ n
big_endian-put_u16 n h = omega arith

pub big_endian-put_u32 : (n : ℕ) → n < 2 ^ 32 → big_endian 0 (put_u32 n) ≡ n
big_endian-put_u32 n h = omega arith

pub take-append : (a b : Text) → take (length a) (a ++ b) ≡ a
take-append [] b = refl
take-append (c ∷ a) b = ap (λ (t : Text). c ∷ t) (take-append a b)

pub drop-append : (a b : Text) → drop (length a) (a ++ b) ≡ b
drop-append [] b = refl
drop-append (c ∷ a) b = drop-append a b

pub length-drop : (n : ℕ) (t : Text) → n ≤ length t → length (drop n t) + n ≡ length t
length-drop zero t h = omega arith
length-drop (suc n) [] h = absurd (omega arith)
length-drop (suc n) (c ∷ t) h = omega (arith, length-drop n t (omega arith))

module _ (buf : Buf) where
  open buf use {B, view, read, read_enough, read_short}

  -- `get_u8`, `get_u16` and so on, by the number of their bytes.
  abbrev pub get : ℕ → B → Result (ℕ × B)
  get n b = do (bytes, r) ← or_panic (read n b); ok (big_endian 0 bytes, r)

  abbrev pub try_get : ℕ → B → Result (ℕ × B)
  try_get n b = do (bytes, r) ← or_io (read n b); ok (big_endian 0 bytes, r)

  -- `try_copy_to_slice` into `n` bytes.
  abbrev pub try_copy : ℕ → B → Result (Text × B)
  try_copy n b = or_io (read n b)

  abbrev pub remaining : B → ℕ
  remaining b = length (view b)

  -- What is in front is what is read.
  pub read-append :
      (b : B) (front behind : Text)
      → view b ≡ front ++ behind
      → (r : B) × (read (length front) b ≡ some (front, r)) × (view r ≡ behind)
  read-append b front behind e =
      let enough : length front ≤ length (view b) =
        omega (arith, ap (λ (t : Text). length t) e, length-append front behind) in
      let (r, got, left) = read_enough (length front) b enough in
      let same : take (length front) (view b) ≡ front =
        ap (take (length front)) e ∙ take-append front behind in
      (
        r,
        got ∙ ap (λ (t : Text). some (t, r)) same,
        left ∙ ap (drop (length front)) e ∙ drop-append front behind,
      )

  pub get-append :
      (b : B) (front behind : Text)
      → view b ≡ front ++ behind
      → (r : B) × (get (length front) b ≡ ok (big_endian 0 front, r)) × (view r ≡ behind)
  get-append b front behind e =
      let (r, got, left) = read-append b front behind e in (r, rw got refl, left)

  -- A successful read takes its bytes off the view.
  pub read-length :
      (n : ℕ) (b r : B) (bytes : Text)
      → read n b ≡ some (bytes, r)
      → length (view r) + n ≡ length (view b)
  read-length n b r bytes e = elim (Bool-cases (ltb (length (view b)) n)) [
    | inl short ↦ let never = read_short n b (ground arith) in cc
    | inr enough ↦
        let le : n ≤ length (view b) = ground arith in
        let (r', got, left) = read_enough n b le in
        let same : r' ≡ r = cc in rw (← same) (rw left (length-drop n (view b) le))
  ]

  -- `get_…` panics, or takes its bytes off the view.
  pub get-cases :
      (n : ℕ) (b : B)
      → ((get n b ≡ panic) × (length (view b) < n))
        ⊎ ((v : ℕ) × (r : B) × (get n b ≡ ok (v, r)) × (length (view r) + n ≡ length (view b)))
  get-cases n b = elim (Bool-cases (ltb (length (view b)) n)) [
    | inl short ↦
        let few : length (view b) < n = ground arith in
        let none_read = read_short n b few in inl (rw none_read refl, few)
    | inr enough ↦
        let le : n ≤ length (view b) = ground arith in
        let (r, got, left) = read_enough n b le in
        inr
          (big_endian 0 (take n (view b)), r, rw got refl, read-length n b r (take n (view b)) got)
  ]

  pub get-short : (n : ℕ) (b : B) → length (view b) < n → get n b ≡ panic
  get-short n b few = rw (read_short n b few) refl

  -- A chain panics if it does so behind everything that `get_…` may give.
  pub get-then_panic {ℓ} :
      {C : Type ℓ} (n : ℕ) (b : B) (next : ℕ × B → Result C)
      → ((v : ℕ) (r : B) → length (view r) + n ≡ length (view b) → next (v, r) ≡ panic)
      → (get n b >>= next) ≡ panic
  get-then_panic n b next panics = elim (get-cases n b) [
    | inl (stop, few) ↦ rw stop refl
    | inr (v, r, got, size) ↦ rw got (panics v r size)
  ]
