-- ===== src/Transport/Framing/Lossless.antt =====
-- rssip/src/transport/decode.rs: no byte of a stream is lost.
use rssip.Prelude.{
  ℕ, zero, suc, ◌+◌, ◌^◌, ◌≡◌, refl, ap, inl, inr, Bool, true, Text, starts_with, [], ◌∷◌, ◌++◌,
  Option, none, some, length, take, drop, ltb, Bool-cases, arith,
}
use rssip.Transport.Framing.{
  FramedMessage, complete, keepalive_request, keepalive_response, headers_end, line_end, header_end,
  split_lines, content_length, frame, sized, headed, decode,
}
use rssip.Error.{Result, ok, err, panic}

abbrev pub bytes_of : FramedMessage → Text
bytes_of (complete m) = m
bytes_of keepalive_request = headers_end
bytes_of keepalive_response = line_end

-- What a result takes off the stream.
abbrev pub taken : Result (Option FramedMessage) → Text
taken (ok (some m)) = bytes_of m
taken (ok none) = []
taken (err e) = []
taken panic = []

take-drop : (n : ℕ) (t : Text) → take n t ++ drop n t ≡ t
take-drop zero t = refl
take-drop (suc n) [] = refl
take-drop (suc n) (c ∷ t) = ap (λ (s : Text). c ∷ s) (take-drop n t)

starts_with-drop : (t p : Text) → starts_with t p ≡ true → p ++ drop (length p) t ≡ t
starts_with-drop t [] e = refl
starts_with-drop [] (b ∷ p) e = cc
starts_with-drop (c ∷ t) (b ∷ p) e =
    let same : c ≡ b = ground arith in
    rw same (ap (λ (s : Text). b ∷ s) (starts_with-drop t p (ground arith)))

module _ (is_utf8 : Text → Bool) (trim : Text → Text) where
  frame-lossless :
      (size : ℕ) (src : Text) → let (m, rest) = frame is_utf8 trim size src in taken m ++ rest ≡ src
  frame-lossless size src = elim (Bool-cases (ltb size (2 ^ 64))) [
    | inr large ↦ rw large refl
    | inl fits ↦ elim (Bool-cases (ltb (length src) size)) [
      | inl short ↦ rw (fits, short) refl
      | inr enough ↦ rw (fits, enough) (take-drop size src)
    ]
  ]

  sized-lossless :
      (start : ℕ) (m : Result (Option ℕ)) (src : Text)
      → let (m, rest) = sized is_utf8 trim start m src in taken m ++ rest ≡ src
  sized-lossless start (ok none) src = refl
  sized-lossless start (ok (some n)) src = frame-lossless (start + n) src
  sized-lossless start (err e) src = refl
  sized-lossless start panic src = refl

  headed-lossless :
      (o : Option ℕ) (src : Text)
      → let (m, rest) = headed is_utf8 trim o src in taken m ++ rest ≡ src
  unfolding headed
  headed-lossless none src = refl
  headed-lossless (some n) src =
      sized-lossless (n + 4) (content_length is_utf8 trim (split_lines (take n src)) none) src

  -- The decoder loses no byte: what it gives, a message or a keep-alive, and what it leaves in the
  -- buffer are the bytes that were there. Where it gives nothing, an error or a panic included, the
  -- buffer is as it was.
  pub decode-lossless :
      (src : Text) → let (m, rest) = decode is_utf8 trim src in taken m ++ rest ≡ src
  unfolding decode
  decode-lossless src = elim (Bool-cases (starts_with src headers_end)) [
    | inl request ↦ rw (decode, request) (starts_with-drop src headers_end request)
    | inr other ↦ elim (Bool-cases (starts_with src line_end)) [
      | inl response ↦ rw (decode, other, response) (starts_with-drop src line_end response)
      | inr message ↦ rw (decode, other, message) (headed-lossless (header_end src) src)
    ]
  ]
