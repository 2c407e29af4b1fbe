-- ===== src/Scanner/Lines.antt =====
-- Lines and columns after any run of operations, against their plain meaning.
use rssip.Prelude.{
  ℕ, suc, ◌+◌, ◌≤◌, ◌≡◌, refl, ap, ◌∙◌, ◌==◌, Text, List, [], ◌∷◌, length, take, arith,
  if◌then◌else◌,
}
use rssip.Scanner.{Position, Scanner, new, start, next_position}
use rssip.Scanner.Consumed.{position_after}
use rssip.Scanner.Positions.{IsValid, new-IsValid, Consumes-IsValid, Op, run, run-ConsumesSome}

abbrev pub run_all : List Op → Scanner → Scanner
run_all [] s = s
run_all (op ∷ ops) s = run_all ops (run op s)

-- How many newlines a text has, and what stands behind the last one.
abbrev pub newlines : Text → ℕ
newlines [] = 0
newlines (c ∷ text) = if c == 10 then suc (newlines text) else newlines text

abbrev pub last_line : Text → Text
last_line [] = []
last_line (c ∷ text) =
    let rest = last_line text in
    if newlines text == 0 then (if c == 10 then text else c ∷ text) else rest

-- A first line counts its bytes from zero, any other from one.
abbrev pub column_of : Text → ℕ
column_of text = if newlines text == 0 then length text else suc (length (last_line text))

position_after-line :
    (p : Position) (text : Text) → (position_after p text).line ≡ p.line + newlines text
position_after-line p [] = omega arith
position_after-line p (c ∷ text) = ground (arith, position_after-line (next_position p c) text)

position_after-column :
    (p : Position) (text : Text)
    → (position_after p text).column
      ≡ (if newlines text == 0 then p.column + length text else suc (length (last_line text)))
position_after-column p [] = omega arith
position_after-column p (c ∷ text) = ground (arith, position_after-column (next_position p c) text)

run_all-IsValid :
    (ops : List Op) (s : Scanner)
    → IsValid s
    → IsValid (run_all ops s) × ((run_all ops s).buffer ≡ s.buffer)
run_all-IsValid [] s v = (v, refl)
run_all-IsValid (op ∷ ops) s v =
    let (bytes, c) = run-ConsumesSome op s v in
    let (w, same) = run_all-IsValid ops (run op s) (Consumes-IsValid s (run op s) bytes v c) in
    (w, same ∙ ap (λ (t : Scanner). t.buffer) c.0)

-- After any run of operations on a new scanner the index is inside the buffer, the line is one more
-- than the newlines in front of the index, and the column is the number of bytes in front of it on
-- its line, one more on every line but the first.
pub run_all-position :
    (ops : List Op) (buffer : Text)
    → let s = run_all ops (new buffer) in
      (s.index ≤ length buffer)
      × (s.position.line ≡ 1 + newlines (take s.index buffer))
      × (s.position.column ≡ column_of (take s.index buffer))
run_all-position ops buffer =
    let s = run_all ops (new buffer) in
    let (v, e) = run_all-IsValid ops (new buffer) (new-IsValid buffer) in
    let same : s.buffer ≡ buffer = e ∙ unfold new in refl in
    let placed : s.position ≡ position_after start (take s.index buffer) =
      v.placed ∙ ap (λ b. position_after start (take s.index b)) same in
    let inside : s.index ≤ length buffer = rw same at v.inside in
    (
      inside,
      ap (λ (p : Position). p.line) placed ∙ position_after-line start (take s.index buffer),
      ap (λ (p : Position). p.column) placed
          ∙ position_after-column start (take s.index buffer)
          ∙ ground arith,
    )
