-- ===== src/Transport/Framing.antt =====
-- rssip/src/transport/decode.rs: `StreamingDecoder`. `is_utf8` is the check of `str::from_utf8` and
-- `trim` is `str::trim`. What `reserve` does to the capacity of the buffer is left out.
pub mod Lossless
pub mod Stable
use rssip.Prelude.{
  ℕ, zero, suc, ◌+◌, ◌-◌, ◌^◌, Bool, ◌||◌, Text, codes, text_eq, starts_with, List, [], ◌∷◌, Option,
  none, some, map, length, take, drop, ltb, ◌==◌, within, if◌then◌else◌, parse_unsigned,
}
use rssip.Error.{io, Result, ok, err, panic}

pub data FramedMessage : Type 0 where
  complete : Text → FramedMessage
  keepalive_request keepalive_response : FramedMessage

abbrev pub headers_end : Text
headers_end = 13 ∷ 10 ∷ 13 ∷ 10 ∷ []

abbrev pub line_end : Text
line_end = 13 ∷ 10 ∷ []

-- `windows(4).position(..)`.
abbrev later : Option ℕ → Option ℕ
later none = none
later (some n) = some (suc n)

unfoldable pub header_end : Text → Option ℕ
header_end [] = none
header_end (c ∷ cs) =
    let rest = header_end cs in if starts_with (c ∷ cs) headers_end then some 0 else later rest

-- `split` at the newlines, and `splitn(2, ..)` at the first colon.
abbrev onto_first : ℕ → List Text → List Text
onto_first c [] = (c ∷ []) ∷ []
onto_first c (l ∷ ls) = (c ∷ l) ∷ ls

unfoldable pub split_lines : Text → List Text
split_lines [] = [] ∷ []
split_lines (c ∷ cs) = let rest = split_lines cs in if c == 10 then [] ∷ rest else onto_first c rest

unfoldable pub split_colon : Text → Text × Option Text
split_colon [] = ([], none)
split_colon (c ∷ cs) =
    let (name, value) = split_colon cs in if c == 58 then ([], some cs) else (c ∷ name, value)

abbrev lower : ℕ → ℕ
lower c = if within 65 90 c then c + 32 else c

abbrev eq_ignore_ascii_case : Text → Text → Bool
eq_ignore_ascii_case a b = text_eq (map lower a) (map lower b)

unfoldable pub is_content_length : Text → Bool
is_content_length name =
    eq_ignore_ascii_case name (codes "Content-Length") || eq_ignore_ascii_case name (codes "l")

module _ (is_utf8 : Text → Bool) (trim : Text → Text) where
  -- A later number replaces an earlier one, and a text that is no number leaves it.
  abbrev keep_parsed : Option ℕ → Option ℕ → Option ℕ
  keep_parsed none old = old
  keep_parsed (some n) old = some n

  abbrev with_value : Option Text → Option ℕ → Result (Option ℕ)
  with_value none found = ok found
  with_value (some value) found =
      if is_utf8 value
      then ok (keep_parsed (parse_unsigned (2 ^ 64 - 1) (trim value)) found)
      else err io

  abbrev line_length : Text → Option ℕ → Result (Option ℕ)
  unfolding split_colon is_content_length
  line_length line found =
      let (name, value) = split_colon line in
      if is_content_length name then with_value value found else ok found

  -- The loop over the lines.
  unfoldable pub content_length : List Text → Option ℕ → Result (Option ℕ)
  unfolding line_length
  content_length [] found = ok found
  content_length (line ∷ lines) found = elim (line_length line found) [
    | ok now ↦ content_length lines now
    | err e ↦ err e
    | panic ↦ panic
  ]

  -- The frame of `size` bytes, if they are there. The sum of two `usize` is checked for overflow.
  abbrev pub frame : ℕ → Text → Result (Option FramedMessage) × Text
  frame size src =
      if ltb size (2 ^ 64)
      then if ltb (length src) size
        then (ok none, src)
        else (ok (some (complete (take size src))), drop size src)
      else (panic, src)

  abbrev pub sized : ℕ → Result (Option ℕ) → Text → Result (Option FramedMessage) × Text
  sized body_start (ok none) src = (err io, src)
  sized body_start (ok (some n)) src = frame (body_start + n) src
  sized body_start (err e) src = (err e, src)
  sized body_start panic src = (panic, src)

  abbrev pub headed : Option ℕ → Text → Result (Option FramedMessage) × Text
  unfolding content_length split_lines
  headed none src = (ok none, src)
  headed (some n) src = sized (n + 4) (content_length (split_lines (take n src)) none) src

  -- `decode`: the result, and what is left of the buffer.
  unfoldable pub decode : Text → Result (Option FramedMessage) × Text
  unfolding header_end headed
  decode src =
      if starts_with src headers_end
      then (ok (some keepalive_request), drop 4 src)
      else if starts_with src line_end
      then (ok (some keepalive_response), drop 2 src)
      else headed (header_end src) src
