-- ===== src/Parser/RoundTrip/Loops.antt =====
-- rssip/src/parser.rs: printed parameters are read back one after another.
use mathlib.Core.List.{append_assoc}
use rssip.Prelude.{
  ℕ, zero, suc, ◌≤◌, ◌<◌, ◌≡◌, ◌⊎◌, inl, inr, refl, ap, ◌∙◌, Bool, true, false, ◌==◌, Text, List,
  [], ◌∷◌, ◌++◌, Option, none, some, All, length, length-append, arith,
}
use rssip.Error.{Result, ok, ◌>>=◌, >>=-eq-ok}
use rssip.Scanner.{Scanner, remaining, scan_if}
use rssip.Scanner.Positions.{remaining-rest}
use rssip.Scanner.Prefixes.{Stops}
use rssip.Scanner.Reading.{At, Yields, scan_while-At, scan_if-At, scan_if-Stops}
use rssip.Scanner.Strings.{is_space, read_behind}
use rssip.Message.Headers.{Param, Uri}
use rssip.Parser.Bytes.{is_param, skip_ws}
use rssip.Parser.Params.{params_loop, parse_params, loop_fuel, read_value, param_ref}
use rssip.Parser.Uris.{set_param, uri_param}
use rssip.Parser.Printing.{behind_equals, show_params}
use rssip.Parser.Printable.{Bytes, IfSome, IsParam}

-- What may come behind a URI: nothing, the closing bracket or the end of the line.
abbrev pub Tail : Text → Type 0
Tail [] = Unit
Tail (c ∷ after) = (c ≡ 62) ⊎ (c ≡ 13)

-- What may come behind a part of it.
abbrev pub Next : Text → Type 0
Next [] = Unit
Next (c ∷ after) = (c ≡ 59) ⊎ ((c ≡ 62) ⊎ (c ≡ 13))

pub Next-Stops :
    (p : ℕ → Bool) (after : Text)
    → p 59 ≡ false
    → p 62 ≡ false
    → p 13 ≡ false
    → Next after
    → Stops p after
Next-Stops p [] semicolon bracket break next = tt
Next-Stops p (c ∷ after) semicolon bracket break (inl e) = rw e semicolon
Next-Stops p (c ∷ after) semicolon bracket break (inr (inl e)) = rw e bracket
Next-Stops p (c ∷ after) semicolon bracket break (inr (inr e)) = rw e break

pub Tail-Stops :
    (p : ℕ → Bool) (after : Text) → p 62 ≡ false → p 13 ≡ false → Tail after → Stops p after
Tail-Stops p [] bracket break tail = tt
Tail-Stops p (c ∷ after) bracket break (inl e) = rw e bracket
Tail-Stops p (c ∷ after) bracket break (inr e) = rw e break

pub show_params-Next :
    (ps : List Param) (after : Text) → Tail after → Next (show_params ps ++ after)
unfolding show_params
show_params-Next [] [] tail = tt
show_params-Next [] (c ∷ after) tail = inr tail
show_params-Next (p ∷ ps) after tail = inl refl

Bytes-Stops :
    (p q : ℕ → Bool) (xs after : Text)
    → ((c : ℕ) → p c ≡ true → q c ≡ false)
    → Bytes p xs
    → Stops q after
    → Stops q (xs ++ after)
Bytes-Stops p q [] after apart bytes stops = stops
Bytes-Stops p q (c ∷ xs) after apart bytes stops = apart c bytes.0

pub skip_ws-At : (t : Text) (s : Scanner) → At s t → Stops is_space t → At (skip_ws s) t
skip_ws-At t s h stops =
    let (s', e, behind) = scan_while-At is_space [] t s h tt stops in rw (skip_ws, e) behind

param_no_space : (c : ℕ) → is_param c ≡ true → is_space c ≡ false
unfolding is_param
param_no_space c h = ground (arith, h)

param_no_quote : (c : ℕ) → is_param c ≡ true → (c == 34) ≡ false
unfolding is_param
param_no_quote c h = ground (arith, h)

value-Stops :
    (q : ℕ → Bool) (v : Option Text) (after : Text)
    → q 61 ≡ false
    → Stops q after
    → Stops q (behind_equals v ++ after)
value-Stops q none after equals stops = stops
value-Stops q (some v) after equals stops = equals

value-Yields :
    (is_utf8 : Text → Bool) (v : Option Text) (after : Text) (s : Scanner)
    → At s (behind_equals v ++ after)
    → IfSome (Bytes (λ c. is_param c)) v
    → Next after
    → Yields (read_behind b'=' (λ s. read_value is_utf8 (λ c. is_param c) s) s) v after
unfolding read_behind is_param
value-Yields is_utf8 none after s h fits next = (
  s,
  rw (scan_if-Stops (λ b. b == b'=') after s h (Next-Stops _ after refl refl refl next)) refl,
  h,
)
value-Yields is_utf8 (some v) after s h fits next =
    let (s1, e1, h1) = scan_if-At (λ b. b == b'=') b'=' (v ++ after) s h refl in
    let plain_value =
      scan_if-Stops (λ b. b == 34) (v ++ after) s1 h1
        (Bytes-Stops (λ c. is_param c) (λ b. b == 34) v after param_no_quote fits
          (Next-Stops _ after refl refl refl next)) in
    let (s2, e2, h2) =
      scan_while-At (λ c. is_param c) v after s1 h1 fits (Next-Stops _ after refl refl refl next) in
    (s2, rw (e1, plain_value, e2) refl, h2)

param_ref-Yields :
    (is_utf8 : Text → Bool) (p : Param) (after : Text) (s : Scanner)
    → At s (p.name ++ (behind_equals p.value ++ after))
    → IsParam p
    → Next after
    → Yields (param_ref is_utf8 (λ c. is_param c) s) p after
unfolding param_ref
param_ref-Yields is_utf8 p after s h is next =
    let first =
      Bytes-Stops (λ c. is_param c) is_space p.name (behind_equals p.value ++ after) param_no_space
        is.label
        (value-Stops is_space p.value after refl (Next-Stops is_space after refl refl refl next)) in
    let (s1, e1, h1) =
      scan_while-At (λ c. is_param c) p.name (behind_equals p.value ++ after) (skip_ws s)
        (skip_ws-At _ s h first) is.label
        (unfold is_param in
          value-Stops (λ c. is_param c) p.value after refl
            (Next-Stops _ after refl refl refl next)) in
    let (s2, e2, h2) = value-Yields is_utf8 p.value after s1 h1 is.value next in
    (s2, rw (e1, e2) refl, h2)

module _ (parse_ip : Text → Option Text) (is_utf8 : Text → Bool) where
  -- What the loop makes of a URI.
  abbrev pub set_all : List Param → Uri → Result Uri
  set_all [] u = ok u
  set_all (p ∷ ps) u = set_param parse_ip p u >>= λ u. set_all ps u

  turn :
      (fuel c : ℕ) (u u1 : Uri) (p : Param) (s s1 s2 : Scanner)
      → scan_if (λ b. b == b';') s ≡ (some c, s1)
      → param_ref is_utf8 (λ c. is_param c) s1 ≡ ok (p, s2)
      → set_param parse_ip p u ≡ ok u1
      → params_loop (uri_param parse_ip is_utf8) (suc fuel) u s
        ≡ params_loop (uri_param parse_ip is_utf8) fuel u1 (skip_ws s2)
  unfolding params_loop uri_param
  turn fuel c u u1 p s s1 s2 e1 e2 e3 = rw (params_loop, e1, e2, e3) refl

  params_loop-Yields :
      (ps : List Param) (fuel : ℕ) (u u' : Uri) (after : Text) (s : Scanner)
      → At s (show_params ps ++ after)
      → Tail after
      → All IsParam ps
      → set_all ps u ≡ ok u'
      → length ps < fuel
      → Yields (params_loop (uri_param parse_ip is_utf8) fuel u s) u' after
  unfolding params_loop show_params
  params_loop-Yields ps zero u u' after s h tail fits e enough = absurd (omega arith)
  params_loop-Yields [] (suc fuel) u u' after s h tail fits e enough = (
    s,
    rw (params_loop, scan_if-Stops (λ b. b == b';') after s h (Tail-Stops _ after refl refl tail))
        (ap (λ m. m >>= λ u. ok (u, s)) e),
    h,
  )
  params_loop-Yields (p ∷ ps) (suc fuel) u u' after s h tail fits e enough =
      let rest = show_params ps ++ after in
      let body : At s (59 ∷ (p.name ++ (behind_equals p.value ++ rest))) =
        (h.0, h.1 ∙ ap (λ (t : Text). 59 ∷ t) (simp append_assoc)) in
      let next = show_params-Next ps after tail in
      let (s1, e1, h1) = scan_if-At (λ b. b == b';') 59 _ s body refl in
      let (s2, e2, h2) = param_ref-Yields is_utf8 p rest s1 h1 fits.0 next in
      let (u1, e3, more) = >>=-eq-ok (set_param parse_ip p u) (λ u. set_all ps u) e in
      let behind = skip_ws-At rest s2 h2 (Next-Stops is_space rest refl refl refl next) in
      let (s3, e4, h3) =
        params_loop-Yields ps fuel u1 u' after (skip_ws s2) behind tail fits.1 more (omega arith) in
      (s3, turn fuel 59 u u1 p s s1 s2 e1 e2 e3 ∙ e4, h3)

  length-show_params :
      (ps : List Param) (after : Text) → length ps ≤ length (show_params ps ++ after)
  unfolding show_params
  length-show_params [] after = omega arith
  length-show_params (p ∷ ps) after = omega (
    arith,
    length-append (p.name ++ behind_equals p.value ++ show_params ps) after,
    length-append (p.name ++ behind_equals p.value) (show_params ps),
    length-append (show_params ps) after,
    length-show_params ps after,
  )

  -- The printed parameters are set one after another.
  pub parse_params-Yields :
      (ps : List Param) (u u' : Uri) (after : Text) (s : Scanner)
      → At s (show_params ps ++ after)
      → Tail after
      → All IsParam ps
      → set_all ps u ≡ ok u'
      → Yields (parse_params (uri_param parse_ip is_utf8) u s) u' after
  unfolding parse_params
  parse_params-Yields ps u u' after s h tail fits e =
      let next = show_params-Next ps after tail in
      let start = skip_ws-At _ s h (Next-Stops is_space _ refl refl refl next) in
      let left : length (remaining (skip_ws s)) ≡ length (show_params ps ++ after) =
        ap (λ (t : Text). length t) (remaining-rest (skip_ws s) start.0 ∙ start.1) in
      params_loop-Yields ps (loop_fuel (skip_ws s)) u u' after (skip_ws s) start tail fits e
        (omega (arith, left, length-show_params ps after))
