-- ===== src/Parser/Progress.antt =====
-- rssip/src/parser.rs: the parsers of parameters only move forward, and their loops end.
use rssip.Prelude.{
  ℕ, zero, suc, ◌-◌, ◌<◌, ◌≡◌, inl, inr, ap, Bool, true, false, not, ◌==◌, Text, Option, none, some,
  length, arith, if◌then◌else◌,
}
use rssip.Error.{parse, Result, Ensures}
use rssip.Scanner.{next_byte, Scanner, bump, remaining}
use rssip.Scanner.Consumed.{rest}
use rssip.Scanner.Positions.{next, IsValid, remaining-rest}
use rssip.Scanner.Strings.{is_space}
use rssip.Scanner.Forward.{Forward, chain, read_behind-Forward}
use rssip.Scanner.Within.{
  Within, Leaves, Leaves-le, scan_while-Within, must_read-Leaves, run-Within, or_err-Leaves,
  scan_if-Within,
}
use rssip.Parser.Bytes.{is_hdr_uri, ok_or, skip_ws, advance, read_byte}
use rssip.Parser.Params.{
  params_loop, parse_params, loop_fuel, read_quoted, read_value, param_ref, headers_loop,
  parse_uri_headers,
}

pub ok_or-Ensures {ℓ} : {A : Type ℓ} (o : Option A) → Ensures (λ _. Unit) (ok_or o)
ok_or-Ensures none = tt
ok_or-Ensures (some a) = tt

pub if-Ensures {ℓ} :
    {A : Type ℓ} (P : A → Type 0) (b : Bool) (x y : Result A)
    → Ensures P x
    → Ensures P y
    → Ensures P (if b then x else y)
if-Ensures P true x y left right = left
if-Ensures P false x y left right = right

pub skip_ws-Within : (n : ℕ) (s : Scanner) → Within n s → Within n (skip_ws s)
skip_ws-Within = scan_while-Within is_space

pub byte-Forward : (c : ℕ) → Forward (read_byte c)
byte-Forward c n s w = must_read-Leaves parse c n s w

pub advance-Forward : Forward advance
unfolding next_byte
advance-Forward n s w = or_err-Leaves parse n _ (run-Within next n s w)

-- The loop of `parse_params!` ends if its step only moves forward.
params_loop-Leaves {ℓ} :
    {A : Type ℓ} (step : A → Scanner → Result (A × Scanner)) (fuel n : ℕ) (a : A) (s : Scanner)
    → ((a : A) → Forward (step a))
    → n < fuel
    → Within n s
    → Leaves n (params_loop step fuel a s)
unfolding params_loop
params_loop-Leaves step zero n a s forward enough w = absurd (omega arith)
params_loop-Leaves step (suc fuel) n a s forward enough w =
    elim (scan_if-Within (λ b. b == b';') n s w) [
      | inl none_left ↦ rw (params_loop, none_left) w
      | inr (c, found, some_left, w) ↦
          rw (params_loop, found)
            (Leaves-le (n - 1) n _ (omega arith) (
              chain (n - 1) (step a (bump c s)) _ (forward a (n - 1) (bump c s) w) λ (a, s) w.
                params_loop-Leaves step fuel (n - 1) a (skip_ws s) forward (omega arith)
                  (skip_ws-Within (n - 1) s w)))
    ]

left_over : (s : Scanner) → IsValid s → length (remaining s) ≡ length (rest s)
left_over s v = ap (λ (t : Text). length t) (remaining-rest s v)

pub parse_params-Forward {ℓ} :
    {A : Type ℓ} (step : A → Scanner → Result (A × Scanner)) (a : A)
    → ((a : A) → Forward (step a))
    → Forward (parse_params step a)
unfolding parse_params
parse_params-Forward step a forward n s w =
    let t = skip_ws s in
    let (v, left) = skip_ws-Within n s w in
    Leaves-le (length (rest t)) n _ left (
      params_loop-Leaves step (loop_fuel t) (length (rest t)) a t forward
        (omega (arith, left_over t v)) (v, omega arith))

module _ (is_utf8 : Text → Bool) where
  read_quoted-Forward : Forward (read_quoted is_utf8)
  read_quoted-Forward n s w =
      chain n _ _ (advance-Forward n _ (scan_while-Within (λ b. not (b == 34)) n s w))
        λ (_, s) w. if-Ensures _ (is_utf8 _) _ _ w tt

  read_value-Forward : (func : ℕ → Bool) → Forward (read_value is_utf8 func)
  read_value-Forward func n s w = elim (scan_if-Within (λ b. b == 34) n s w) [
    | inl none_left ↦ rw (read_value, none_left) (scan_while-Within func n s w)
    | inr (c, found, some_left, w) ↦
        rw (read_value, found)
          (Leaves-le (n - 1) n _ (omega arith) (read_quoted-Forward (n - 1) (bump c s) w))
  ]

  pub param_ref-Forward : (func : ℕ → Bool) → Forward (param_ref is_utf8 func)
  unfolding param_ref
  param_ref-Forward func n s w =
      chain n _ _
        (read_behind-Forward b'=' (read_value is_utf8 func) (read_value-Forward func) n _
          (scan_while-Within func n _ (skip_ws-Within n s w)))
        (λ r w. w)

  headers_loop-Leaves :
      (fuel n : ℕ) (s : Scanner) → n < fuel → Within n s → Leaves n (headers_loop is_utf8 fuel s)
  unfolding headers_loop
  headers_loop-Leaves zero n s enough w = absurd (omega arith)
  headers_loop-Leaves (suc fuel) n s enough w =
      chain n _ _ (param_ref-Forward (λ b. is_hdr_uri b) n s w) λ (p, s) w.
        elim (scan_if-Within (λ b. b == b'&') n s w) [
          | inl none_left ↦ rw none_left w
          | inr (c, found, some_left, w) ↦ rw found (
              Leaves-le (n - 1) n _ (omega arith) (
                chain (n - 1) _ _ (headers_loop-Leaves fuel (n - 1) (bump c s) (omega arith) w)
                  (λ r w. w)))
        ]

  pub parse_uri_headers-Forward : Forward (parse_uri_headers is_utf8)
  unfolding parse_uri_headers
  parse_uri_headers-Forward n s w = Leaves-le (length (rest s)) n _ w.1 (
      headers_loop-Leaves (loop_fuel s) (length (rest s)) s (omega (arith, left_over s w.0))
        (w.0, omega arith))
