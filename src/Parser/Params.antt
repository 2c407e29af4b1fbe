-- ===== src/Parser/Params.antt =====
-- rssip/src/parser.rs: parameters, and the macro `parse_params!`. `is_utf8` is the check of
-- `std::str::from_utf8`. A loop that runs out of fuel counts as a panic here.
use rssip.Prelude.{ℕ, zero, suc, Bool, not, ◌==◌, Text, List, [], ◌∷◌, length, if◌then◌else◌}
use rssip.Error.{parse, Result, ok, err, panic, ◌>>=◌}
use rssip.Scanner.{Scanner, remaining, scan_while, scan_if_eq}
use rssip.Scanner.Strings.{if_read, read_behind}
use rssip.Message.Headers.{Param}
use rssip.Parser.Bytes.{skip_ws, advance, is_hdr_uri}

-- `parse_params!`: the loop over what stands behind each semicolon, on the state of the caller.
unfoldable pub params_loop {ℓ} :
    {A : Type ℓ} → (A → Scanner → Result (A × Scanner)) → ℕ → A → Scanner → Result (A × Scanner)
params_loop step zero a s = panic
params_loop step (suc fuel) a s =
    if_read (scan_if_eq b';' s) (λ s. ok (a, s))
      λ s. step a s >>= λ (a, s). params_loop step fuel a (skip_ws s)

abbrev pub loop_fuel : Scanner → ℕ
loop_fuel s = suc (length (remaining s))

unfoldable pub parse_params {ℓ} :
    {A : Type ℓ} → (A → Scanner → Result (A × Scanner)) → A → Scanner → Result (A × Scanner)
unfolding params_loop
parse_params step a s = params_loop step (loop_fuel (skip_ws s)) a (skip_ws s)

module _ (is_utf8 : Text → Bool) where
  -- Up to the closing quote.
  abbrev pub read_quoted : Scanner → Result (Text × Scanner)
  read_quoted s = do
    let (value, s) = scan_while (λ b. not (b == 34)) s
    (_, s) ← advance s
    if is_utf8 value then ok (value, s) else err parse

  abbrev pub read_value : (ℕ → Bool) → Scanner → Result (Text × Scanner)
  read_value func s = if_read (scan_if_eq 34 s) (λ s. ok (scan_while func s)) (λ s. read_quoted s)

  -- `param_ref_unchecked`.
  unfoldable pub param_ref : (ℕ → Bool) → Scanner → Result (Param × Scanner)
  unfolding read_behind
  param_ref func s = do
    let (label, s) = scan_while func (skip_ws s)
    (value, s) ← read_behind b'=' (λ s. read_value func s) s
    ok (record { name = label; value = value }, s)

  -- The loop of `parse_uri_headers`.
  unfoldable pub headers_loop : ℕ → Scanner → Result (List Param × Scanner)
  unfolding param_ref
  headers_loop zero s = panic
  headers_loop (suc fuel) s = param_ref (λ b. is_hdr_uri b) s >>= λ (p, s).
      if_read (scan_if_eq b'&' s) (λ s. ok (p ∷ [], s))
        λ s. headers_loop fuel s >>= λ (more, s). ok (p ∷ more, s)

  unfoldable pub parse_uri_headers : Scanner → Result (List Param × Scanner)
  unfolding headers_loop
  parse_uri_headers s = headers_loop (loop_fuel s) s
