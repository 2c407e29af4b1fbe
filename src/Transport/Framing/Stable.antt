-- ===== src/Transport/Framing/Stable.antt =====
-- rssip/src/transport/decode.rs: a frame that is complete does not depend on what follows it.
use rssip.Prelude.{
  ℕ, zero, suc, ◌+◌, ◌≤◌, ◌^◌, ◌≡◌, refl, ap, ◌∙◌, inl, inr, Bool, true, false, Text, starts_with,
  [], ◌∷◌, ◌++◌, Option, none, some, length, length-append, take, drop, ltb, Bool-cases,
  Option-cases, arith,
}
use rssip.Transport.Framing.{
  complete, headers_end, line_end, header_end, later, split_lines, content_length, frame, sized,
  headed, decode,
}
use rssip.Error.{Result, ok, err, panic}

starts_with-longer :
    (t more p : Text) → length p ≤ length t → starts_with (t ++ more) p ≡ starts_with t p
starts_with-longer t more [] h = refl
starts_with-longer [] more (b ∷ p) h = absurd (omega arith)
starts_with-longer (c ∷ t) more (b ∷ p) h =
    let ih = starts_with-longer t more p (omega arith) in rw ih refl

starts_with-length : (t p : Text) → starts_with t p ≡ true → length p ≤ length t
starts_with-length t [] e = omega arith
starts_with-length [] (b ∷ p) e = cc
starts_with-length (c ∷ t) (b ∷ p) e =
    let ih = starts_with-length t p (ground arith) in omega (arith, ih)

later-some : (o : Option ℕ) (n : ℕ) → later o ≡ some n → (k : ℕ) × (o ≡ some k) × (n ≡ suc k)
later-some none n e = cc
later-some (some k) n e = (k, refl, cc)

header_end-length : (src : Text) (n : ℕ) → header_end src ≡ some n → n + 4 ≤ length src
unfolding header_end
header_end-length [] n e = cc
header_end-length (c ∷ cs) n e = elim (Bool-cases (starts_with (c ∷ cs) headers_end)) [
  | inl here ↦
      let first : some 0 ≡ some n = rw here at e in
      let size = starts_with-length (c ∷ cs) headers_end here in
      let at_start : 0 ≡ n = cc in omega (arith, size, at_start)
  | inr further ↦
      let (k, found, next) = later-some (header_end cs) n (rw further at e) in
      let ih = header_end-length cs k found in omega (arith, ih, next)
]

header_end-longer :
    (src more : Text) (n : ℕ) → header_end src ≡ some n → header_end (src ++ more) ≡ some n
unfolding header_end
header_end-longer [] more n e = cc
header_end-longer (c ∷ cs) more n e =
    let size = header_end-length (c ∷ cs) n e in
    let same = starts_with-longer (c ∷ cs) more headers_end (omega (arith, size)) in
    elim (Bool-cases (starts_with (c ∷ cs) headers_end)) [
      | inl here ↦ let first : some 0 ≡ some n = rw here at e in rw (header_end, same, here) first
      | inr further ↦
          let (k, found, next) = later-some (header_end cs) n (rw further at e) in
          let ih = header_end-longer cs more k found in
          rw (header_end, same, further, ih, next) refl
    ]

take-longer : (n : ℕ) (t more : Text) → n ≤ length t → take n (t ++ more) ≡ take n t
take-longer zero t more h = refl
take-longer (suc n) [] more h = absurd (omega arith)
take-longer (suc n) (c ∷ t) more h = ap (λ (s : Text). c ∷ s) (take-longer n t more (omega arith))

drop-longer : (n : ℕ) (t more : Text) → n ≤ length t → drop n (t ++ more) ≡ drop n t ++ more
drop-longer zero t more h = refl
drop-longer (suc n) [] more h = absurd (omega arith)
drop-longer (suc n) (c ∷ t) more h = drop-longer n t more (omega arith)

module _ (is_utf8 : Text → Bool) (trim : Text → Text) where
  frame-longer :
      (size : ℕ) (src more m rest : Text)
      → frame is_utf8 trim size src ≡ (ok (some (complete m)), rest)
      → frame is_utf8 trim size (src ++ more) ≡ (ok (some (complete m)), rest ++ more)
  frame-longer size src more m rest e = elim (Bool-cases (ltb size (2 ^ 64))) [
    | inr large ↦ let never = rw large at e in cc
    | inl fits ↦ elim (Bool-cases (ltb (length src) size)) [
      | inl short ↦ let never = rw (fits, short) at e in cc
      | inr enough ↦
          let got = rw (fits, enough) at e in
          let le : size ≤ length src = ground arith in
          let still : ltb (length (src ++ more)) size ≡ false =
            ground (arith, length-append src more) in
          let message : take size src ≡ m = cc in
          let behind : drop size src ≡ rest = cc in
          rw
            (
              fits,
              still,
              take-longer size src more le,
              drop-longer size src more le,
              message,
              behind,
            )
            refl
    ]
  ]

  sized-longer :
      (start : ℕ) (found : Result (Option ℕ)) (src more m rest : Text)
      → sized is_utf8 trim start found src ≡ (ok (some (complete m)), rest)
      → sized is_utf8 trim start found (src ++ more) ≡ (ok (some (complete m)), rest ++ more)
  sized-longer start (ok none) src more m rest e = cc
  sized-longer start (ok (some n)) src more m rest e = frame-longer (start + n) src more m rest e
  sized-longer start (err x) src more m rest e = cc
  sized-longer start panic src more m rest e = cc

  -- A message that is complete in the buffer is decoded as the same message whatever has arrived
  -- behind it, and what has arrived stays in the buffer.
  pub decode-longer :
      (src more m rest : Text)
      → decode is_utf8 trim src ≡ (ok (some (complete m)), rest)
      → decode is_utf8 trim (src ++ more) ≡ (ok (some (complete m)), rest ++ more)
  unfolding decode headed
  decode-longer src more m rest e = elim (Bool-cases (starts_with src headers_end)) [
    | inl request ↦ let never = rw (decode, request) at e in cc
    | inr other ↦ elim (Bool-cases (starts_with src line_end)) [
      | inl response ↦ let never = rw (decode, other, response) at e in cc
      | inr message ↦
          let got = rw (decode, other, message) at e in
          elim (Option-cases (header_end src)) [
            | inl nowhere ↦ let never = rw nowhere at got in cc
            | inr (n, found) ↦
                let size = header_end-length src n found in
                let more_end = header_end-longer src more n found in
                let no_request =
                  starts_with-longer src more headers_end (omega (arith, size)) ∙ other in
                let no_response =
                  starts_with-longer src more line_end (omega (arith, size)) ∙ message in
                let same = take-longer n src more (omega (arith, size)) in
                let here = rw found at got in
                rw (decode, no_request, no_response, more_end, headed, same)
                  (sized-longer (n + 4)
                    (content_length is_utf8 trim (split_lines (take n src)) none) src more m rest
                    here)
          ]
    ]
  ]
