-- ===== src/Media/Rtcp/Compound.antt =====
-- rssip-media/src/rtcp: the loop over a compound packet ends, and what it is read as.
use rssip.Prelude.{
  ℕ, zero, suc, ◌-◌, ◌≤◌, ◌<◌, ◌≡◌, ◌≢◌, refl, ap, inl, inr, Bool, true, not, ◌&&◌, Text, List, [],
  ◌∷◌, Option, none, some, length, ◌==◌, Bool-cases, arith,
}
use rssip.Error.{Result, ok, err, panic, Result-cases, >>=-eq-ok}
use rssip.Media.Buffer.{Buf, remaining}
use rssip.Media.Rtcp.{RtcpPacket}
use rssip.Media.Rtcp.Parsing.{
  parse_header, parse_kind, parse_rtcp, parse_chunk, parse_compound, next, pushed,
}
use rssip.Media.Rtcp.Consumed.{Within}
use rssip.Media.Rtcp.Chunks.{parse_chunk-ne-panic}
use rssip.Media.Rtcp.Kinds.{
  Settles, next-Settles, pushed-Settles, takes_the_rest, parse_kind-rest, parse_rtcp-Within,
}

-- Every packet but the last is of a type whose parser stops at its own end.
abbrev pub reports_last : List RtcpPacket → Bool
reports_last [] = true
reports_last (p ∷ []) = true
reports_last (p ∷ q ∷ ps) = not (takes_the_rest p.header.packet_type) && reports_last (q ∷ ps)

module _ (buf : Buf) (is_utf8 : Text → Bool) where
  open buf use {B, view}

  -- On fuel above the bytes that are left the loop over the packets ends, as every packet takes
  -- its header's four bytes.
  parse_compound-Settles :
      (fuel n : ℕ) (b : B)
      → length (view b) < fuel
      → length (view b) ≤ n
      → Settles buf is_utf8 n (parse_compound buf is_utf8 fuel b)
  unfolding parse_compound
  parse_compound-Settles zero n b enough h = absurd (omega arith)
  parse_compound-Settles (suc fuel) n b enough h = elim (Bool-cases (remaining buf b == 0)) [
    | inl end ↦ rw (parse_compound, end) (ok ([], b), refl, h)
    | inr left ↦
        let some_left : 0 < length (view b) = ground arith in
        let k = length (view b) - 1 in
        rw (parse_compound, left)
          (next-Settles buf is_utf8 k n (parse_rtcp buf is_utf8 b) _
            (parse_rtcp-Within buf is_utf8 k b (omega arith))
            (λ p r e.
              pushed-Settles buf is_utf8 n p _
                (parse_compound-Settles fuel n r (omega arith) (omega arith))))
  ]

  -- For every buffer the loops of `RtcpCompoundPacket::parse` end: on fuel above the number of its
  -- bytes the loop over the packets has a result, which is packets, an error or a panic; and
  -- `SourceDescriptionChunk::parse`, where a loop over the items without an end counts as a panic,
  -- never panics.
  pub parse_compound-ends :
      (fuel : ℕ) (b : B)
      → length (view b) < fuel
      → ((m : Result (List RtcpPacket × B)) × (parse_compound buf is_utf8 fuel b ≡ some m))
        × (parse_chunk buf is_utf8 b ≢ panic)
  parse_compound-ends fuel b enough =
      let (m, e, h) = parse_compound-Settles fuel (length (view b)) b enough (omega arith) in
      ((m, e), parse_chunk-ne-panic buf is_utf8 b)

  parse_rtcp-rest :
      (b r : B) (p : RtcpPacket)
      → parse_rtcp buf is_utf8 b ≡ ok (p, r)
      → takes_the_rest p.header.packet_type ≡ true
      → length (view r) ≤ 0
  unfolding parse_rtcp
  parse_rtcp-rest b r p e kind =
      let ((h, b1), got, e1) = >>=-eq-ok (parse_header buf b) _ e in
      let ((k, b2), got2, e2) = >>=-eq-ok (parse_kind buf is_utf8 h b1) _ e1 in
      let same : b2 ≡ r = cc in
      let whole : record { header = h; packet_kind = k } ≡ p = cc in
      let head : h ≡ p.header = ap (λ (q : RtcpPacket). q.header) whole in
      let all = parse_kind-rest buf is_utf8 h b1 (rw head kind) in
      let none_left : Within buf 0 (ok (k, b2)) = rw got2 at all in rw (← same) none_left

  no_bytes : (t : Text) → length t ≤ 0 → t ≡ []
  no_bytes [] h = refl
  no_bytes (c ∷ t) h = absurd (omega arith)

  pushed-some {ℓ} :
      {A : Type ℓ} (a : A) (loop : Option (Result (List A × B))) (xs : List A) (r : B)
      → pushed buf a loop ≡ some (ok (xs, r))
      → (more : List A) × (loop ≡ some (ok (more, r))) × (xs ≡ a ∷ more)
  pushed-some a none xs r e = cc
  pushed-some a (some panic) xs r e = cc
  pushed-some a (some (err x)) xs r e = cc
  pushed-some a (some (ok (more, s))) xs r e = (more, cc, cc)

  parse_compound-nil :
      (fuel : ℕ) (b r : B) (ps : List RtcpPacket)
      → length (view b) ≤ 0
      → parse_compound buf is_utf8 fuel b ≡ some (ok (ps, r))
      → ps ≡ []
  unfolding parse_compound
  parse_compound-nil zero b r ps h e = cc
  parse_compound-nil (suc fuel) b r ps h e =
      let end : (remaining buf b == 0) ≡ true = ground arith in
      let same = rw (parse_compound, end) at e in cc

  reports_last-cons :
      (fuel : ℕ) (b r s : B) (p : RtcpPacket) (more : List RtcpPacket)
      → parse_rtcp buf is_utf8 b ≡ ok (p, s)
      → parse_compound buf is_utf8 fuel s ≡ some (ok (more, r))
      → reports_last more ≡ true
      → reports_last (p ∷ more) ≡ true
  reports_last-cons fuel b r s p [] got rest ih = refl
  reports_last-cons fuel b r s p (q ∷ more) got rest ih =
      elim (Bool-cases (takes_the_rest p.header.packet_type)) [
        | inl all ↦
            let never =
              parse_compound-nil fuel s r (q ∷ more) (parse_rtcp-rest b s p got all) rest in
            cc
        | inr own ↦ rw own ih
      ]

  -- When `RtcpCompoundPacket::parse` succeeds, every byte is read, and sender reports, receiver
  -- reports and application packets stand only at the end of the packets: each of them reads all
  -- bytes behind it as its own, whatever its length field says.
  pub parse_compound-reports_last :
      (fuel : ℕ) (b r : B) (ps : List RtcpPacket)
      → parse_compound buf is_utf8 fuel b ≡ some (ok (ps, r))
      → (view r ≡ []) × (reports_last ps ≡ true)
  unfolding parse_compound
  parse_compound-reports_last zero b r ps e = cc
  parse_compound-reports_last (suc fuel) b r ps e = elim (Bool-cases (remaining buf b == 0)) [
    | inl end ↦
        let same = rw (parse_compound, end) at e in
        let nothing : ps ≡ [] = cc in
        let here : b ≡ r = cc in (rw (← here) (no_bytes (view b) (ground arith)), rw nothing refl)
    | inr left ↦
        let step = rw (parse_compound, left) at e in
        elim (Result-cases (parse_rtcp buf is_utf8 b)) [
          | inl ((p, s), got) ↦
              let (more, rest, whole) = pushed-some p _ ps r (rw (got, next) at step) in
              let (ends, ih) = parse_compound-reports_last fuel s r more rest in
              (ends, rw whole (reports_last-cons fuel b r s p more got rest ih))
          | inr (inl (x, fails)) ↦ let never = rw (fails, next) at step in cc
          | inr (inr stops) ↦ let never = rw (stops, next) at step in cc
        ]
  ]
