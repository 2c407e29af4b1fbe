-- ===== src/Message/Quality.antt =====
-- rssip/src/message/params/q.rs: quality values, their parse and their print.
use rssip.Prelude.{
  ℕ, ◌≤◌, ◌≡◌, refl, ap, false, ◌==◌, if◌then◌else◌, Text, [], ◌∷◌, ◌++◌, Option, none, some,
  parse_unsigned, parse_unsigned-decimal, decimal, decimal-IsDigits, IsDigits, arith,
}

pub record Quality : Type 0 where
  pub whole : ℕ
  pub fraction : ℕ

-- `rsplit_once('.')`.
abbrev split_later : ℕ → Text → Option (Text × Text) → Option (Text × Text)
split_later c cs (some (a, b)) = some (c ∷ a, b)
split_later c cs none = if c == 46 then some ([], cs) else none

unfoldable pub rsplit_dot : Text → Option (Text × Text)
rsplit_dot [] = none
rsplit_dot (c ∷ cs) = split_later c cs (rsplit_dot cs)

abbrev both_parts : Option ℕ → Option ℕ → Option Quality
both_parts (some a) (some b) = some (record { whole = a; fraction = b })
both_parts _ _ = none

abbrev whole_only : Option ℕ → Option Quality
whole_only none = none
whole_only (some a) = some (record { whole = a; fraction = 0 })

abbrev of_parts : Option (Text × Text) → Text → Option Quality
of_parts (some (a, b)) s = both_parts (parse_unsigned 255 a) (parse_unsigned 255 b)
of_parts none s = whole_only (parse_unsigned 255 s)

-- `Q::from_str`: both numbers are `u8`.
unfoldable pub parse_quality : Text → Option Quality
unfolding rsplit_dot
parse_quality s = of_parts (rsplit_dot s) s

-- What `Display` prints behind `;q=`.
unfoldable pub print_quality : Quality → Text
print_quality q = decimal q.whole ++ 46 ∷ decimal q.fraction

digits-rsplit_dot : (t : Text) → IsDigits t → rsplit_dot t ≡ none
unfolding rsplit_dot
digits-rsplit_dot [] all = refl
digits-rsplit_dot (c ∷ t) all =
    let other : (c == 46) ≡ false = ground (arith, all.0) in
    rw (digits-rsplit_dot t all.1, other) refl

rsplit_dot-append : (a b : Text) → IsDigits b → rsplit_dot (a ++ 46 ∷ b) ≡ some (a, b)
unfolding rsplit_dot
rsplit_dot-append [] b all = rw (digits-rsplit_dot b all) refl
rsplit_dot-append (c ∷ a) b all = ap (split_later c (a ++ 46 ∷ b)) (rsplit_dot-append a b all)

-- A quality value that is printed is read back, if both of its numbers are bytes.
pub parse_quality-print_quality :
    (q : Quality) → q.whole ≤ 255 → q.fraction ≤ 255 → parse_quality (print_quality q) ≡ some q
unfolding parse_quality print_quality
parse_quality-print_quality q first second =
    rw
      (
        rsplit_dot-append (decimal q.whole) (decimal q.fraction) (decimal-IsDigits q.fraction),
        parse_unsigned-decimal q.whole 255 first,
        parse_unsigned-decimal q.fraction 255 second,
      )
      refl
