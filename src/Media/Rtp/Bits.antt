-- ===== src/Media/Rtp/Bits.antt =====
-- rssip-media/src/rtp: the first two bytes of a header, as they are written and as they are read.
use Prim.Native.Nat.{bit_and, bit_or}
use rssip.Prelude.{
  ℕ, zero, suc, ◌*◌, ◌/◌, ◌%◌, ◌^◌, ◌≤◌, ◌<◌, ◌≡◌, refl, inl, inr, Bool-cases, Bool, true, false,
  not, ◌&&◌, ◌==◌, arith,
}
use rssip.Media.Rtp.{has_bit, bit_of}

-- A test of all numbers under a bound, to be run.
holds_under : (ℕ → Bool) → ℕ → Bool
holds_under test zero = true
holds_under test (suc bound) = let smaller = holds_under test bound in smaller && test bound

read_off :
    (test : ℕ → Bool) (bound : ℕ) {n : ℕ}
    → n < bound
    → holds_under test bound ≡ true
    → test n ≡ true
unfolding holds_under
read_off test zero lt passed = elim lt [ ]
read_off test (suc bound) {n} lt passed = elim (Bool-cases (n == bound)) [
  | inl last ↦ let same : n ≡ bound = ground arith in rw same (ground arith)
  | inr other ↦ read_off test bound (ground arith) (ground arith)
]

-- The first byte: version 2, neither padding nor extension, and the count.
abbrev first_byte_reads : ℕ → Bool
first_byte_reads n =
    let b = bit_or (2 * 2 ^ 6) (n % 256) in
    (b / 2 ^ 6 == 2) && not (has_bit 32 b) && not (has_bit 16 b) && (bit_and b 15 == n)

first_byte_table : holds_under first_byte_reads 16 ≡ true
unfolding holds_under
first_byte_table = refl

abbrev bool_eq : Bool → Bool → Bool
bool_eq true b = b
bool_eq false b = not b

abbrev second_byte_reads : Bool → ℕ → Bool
second_byte_reads m n =
    let b = bit_or (bit_of m * 2 ^ 7) n in bool_eq m (has_bit 128 b) && (bit_and b 127 == n)

second_byte_table : (m : Bool) → holds_under (second_byte_reads m) 128 ≡ true
unfolding holds_under
second_byte_table true = refl
second_byte_table false = refl

&&-split : (a b : Bool) → (a && b) ≡ true → (a ≡ true) × (b ≡ true)
&&-split a b h = ground arith

bool_eq_sound : (a b : Bool) → bool_eq a b ≡ true → b ≡ a
bool_eq_sound true b h = h
bool_eq_sound false true h = cc
bool_eq_sound false false h = refl

pub first_byte :
    (n : ℕ)
    → n ≤ 15
    → let b = bit_or (2 * 2 ^ 6) (n % 256) in
      (b / 2 ^ 6 ≡ 2) × (has_bit 32 b ≡ false) × (has_bit 16 b ≡ false) × (bit_and b 15 ≡ n)
first_byte n le =
    let table = read_off first_byte_reads 16 {n = n} (omega arith) first_byte_table in ground arith

pub second_byte :
    (m : Bool) (n : ℕ)
    → n < 128
    → let b = bit_or (bit_of m * 2 ^ 7) n in (has_bit 128 b ≡ m) × (bit_and b 127 ≡ n)
second_byte m n lt =
    let table = read_off (second_byte_reads m) 128 lt (second_byte_table m) in
    let b = bit_or (bit_of m * 2 ^ 7) n in
    let (same, low) = &&-split (bool_eq m (has_bit 128 b)) (bit_and b 127 == n) table in
    (bool_eq_sound m (has_bit 128 b) same, ground arith)
