-- ===== src/Media/Rtcp/Kinds.antt =====
-- rssip-media/src/rtcp: how many bytes the parsers of texts, items and packets leave.
use rssip.Prelude.{
  ℕ, zero, suc, ◌+◌, ◌≤◌, ◌<◌, ◌≡◌, refl, inl, inr, Bool, true, ◌||◌, Text, List, [], ◌∷◌, Option,
  none, some, length, ◌==◌, if◌then◌else◌, Bool-cases, Option-cases, arith,
}
use rssip.Error.{io, Result, ok, err, panic, ◌>>=◌}
use rssip.Media.Buffer.{Buf, remaining, big_endian, read-length}
use rssip.Media.Rtcp.{RtcpHeader, SdesItem, sdes_item}
use rssip.Media.Rtcp.Parsing.{
  read_string, of_kind, parse_item, parse_items, parse_chunk, parse_source_description, reason_of,
  parse_good_bye, parse_kind, parse_rtcp, next, settled, pushed,
}
use rssip.Media.Rtcp.Consumed.{
  Within, >>=-Within, Within-le, try_copy-Within, try_get-Within, try_get-cases, times-Within,
  get_u32s-Within, parse_header-Within, parse_sender_report-Within, parse_receiver_report-Within,
  parse_application_defined-Within,
}

-- The types whose parser reads all that is left.
abbrev pub takes_the_rest : ℕ → Bool
takes_the_rest kind = (kind == 200) || (kind == 201) || (kind == 204)

module _ (buf : Buf) (is_utf8 : Text → Bool) where
  open buf use {B, view, read}

  read_string-Within :
      (k n : ℕ) (b : B) → length (view b) ≤ n → Within buf n (read_string buf is_utf8 k b)
  unfolding read_string
  read_string-Within k n b h =
      >>=-Within buf n n _ _ (try_copy-Within buf k n b (omega arith)) (λ bytes r e.
        elim (Bool-cases (is_utf8 bytes)) [ inl good ↦ rw good e | inr bad ↦ rw bad tt ])

  of_kind-Within :
      (item : Option SdesItem) (n : ℕ) (b : B)
      → length (view b) ≤ n
      → Within buf n (of_kind buf is_utf8 item b)
  of_kind-Within none n b h = tt
  of_kind-Within (some item) n b h = h

  parse_item-Within :
      (kind n : ℕ) (b : B) → length (view b) ≤ n → Within buf n (parse_item buf is_utf8 kind b)
  unfolding parse_item
  parse_item-Within kind n b h =
      >>=-Within buf n n _ _ (try_get-Within buf 1 n b (omega arith)) (λ size r e.
        >>=-Within buf n n _ _ (read_string-Within size n r e)
          (λ text s f. of_kind-Within (sdes_item kind text) n s f))

  -- A loop ends on its fuel, and leaves at most `n` bytes if it succeeds.
  abbrev pub Settles {ℓ} : {A : Type ℓ} → ℕ → Option (Result (A × B)) → Type ℓ
  Settles {A = A} n loop = (m : Result (A × B)) × (loop ≡ some m) × Within buf n m

  pub next-Settles {ℓ κ} :
      {A : Type ℓ} {C : Type κ} (k n : ℕ) (m : Result (A × B)) (f : A × B → Option (Result (C × B)))
      → Within buf k m
      → ((a : A) (r : B) → length (view r) ≤ k → Settles n (f (a, r)))
      → Settles n (next m f)
  next-Settles k n (ok (a, r)) f h g = g a r h
  next-Settles k n (err e) f h g = (err e, refl, tt)
  next-Settles k n panic f h g = (panic, refl, tt)

  pub pushed-Settles {ℓ} :
      {A : Type ℓ} (n : ℕ) (a : A) (loop : Option (Result (List A × B)))
      → Settles n loop
      → Settles n (pushed buf a loop)
  pushed-Settles n a loop (m, e, h) =
      (m >>= (λ (more, b). ok (a ∷ more, b)), rw e refl, >>=-Within buf n n m _ h (λ more r le. le))

  pub parse_items-Settles :
      (fuel n : ℕ) (b : B)
      → length (view b) < fuel
      → length (view b) ≤ n
      → Settles n (parse_items buf is_utf8 fuel b)
  unfolding parse_items
  parse_items-Settles zero n b enough h = absurd (omega arith)
  parse_items-Settles (suc fuel) n b enough h = elim (try_get-cases buf 1 b) [
    | inl short ↦ rw short (err io, refl, tt)
    | inr (kind, r, got, size) ↦ elim (Bool-cases (kind == 0)) [
      | inl end ↦ rw (got, next, end) (ok ([], r), refl, omega arith)
      | inr item ↦
          let less = parse_item-Within kind (length (view r)) r (omega arith) in
          rw (got, next, item)
            (next-Settles (length (view r)) n (parse_item buf is_utf8 kind r) _ less (λ i s f.
              pushed-Settles n i _ (parse_items-Settles fuel n s (omega arith) (omega arith))))
    ]
  ]

  settled-Within {ℓ} :
      {A : Type ℓ} (n : ℕ) (loop : Option (Result (A × B)))
      → Settles n loop
      → Within buf n (settled loop)
  settled-Within n loop (m, e, h) = rw e h

  parse_chunk-Within :
      (n : ℕ) (b : B) → length (view b) ≤ n → Within buf n (parse_chunk buf is_utf8 b)
  unfolding parse_chunk
  parse_chunk-Within n b h =
      >>=-Within buf n n _ _ (try_get-Within buf 4 n b (omega arith)) (λ source r e.
        >>=-Within buf n n _ _
          (settled-Within n _ (parse_items-Settles (suc (remaining buf r)) n r (omega arith) e))
          (λ items s f. f))

  parse_source_description-Within :
      (head : RtcpHeader) (n : ℕ) (b : B)
      → length (view b) ≤ n
      → Within buf n (parse_source_description buf is_utf8 head b)
  unfolding parse_source_description
  parse_source_description-Within head n b h =
      >>=-Within buf n n _ _ (times-Within buf _ head.count n b (parse_chunk-Within n) h)
        (λ chunks r e. e)

  reason_of-Within :
      (n : ℕ) (b : B) → length (view b) ≤ n → Within buf n (reason_of buf is_utf8 (read 1 b) b)
  unfolding reason_of
  reason_of-Within n b h = elim (Option-cases (read 1 b)) [
    | inl short ↦ rw short h
    | inr ((bytes, r), got) ↦
        let less : length (view r) ≤ n = omega (arith, read-length buf 1 b r bytes got) in
        rw got (
          >>=-Within buf n n _ _ (read_string-Within (big_endian 0 bytes) n r less)
            (λ reason s f. f))
  ]

  parse_good_bye-Within :
      (head : RtcpHeader) (n : ℕ) (b : B)
      → length (view b) ≤ n
      → Within buf n (parse_good_bye buf is_utf8 head b)
  unfolding parse_good_bye
  parse_good_bye-Within head n b h =
      >>=-Within buf n n _ _ (get_u32s-Within buf head.count n b h)
        (λ sources r e. >>=-Within buf n n _ _ (reason_of-Within n r e) (λ reason s f. f))

  dispatch-Within {ℓ} :
      {A : Type ℓ} (n kind : ℕ) (m1 m2 m3 m4 m5 m6 : Result (A × B))
      → (((kind == 200) ≡ true → Within buf n m1)
          × ((kind == 201) ≡ true → Within buf n m2)
          × ((kind == 202) ≡ true → Within buf n m3)
          × ((kind == 203) ≡ true → Within buf n m4)
          × ((kind == 204) ≡ true → Within buf n m5)
          × Within buf n m6)
      → Within buf n (
          if kind == 200
          then m1
          else if kind == 201
          then m2
          else if kind == 202
          then m3
          else if kind == 203
          then m4
          else if kind == 204
          then m5
          else m6)
  dispatch-Within n kind m1 m2 m3 m4 m5 m6 (h1, h2, h3, h4, h5, h6) =
      elim (Bool-cases (kind == 200)) [
        | inl e ↦ rw e (h1 e)
        | inr e1 ↦ rw e1 (elim (Bool-cases (kind == 201)) [
          | inl e ↦ rw e (h2 e)
          | inr e2 ↦ rw e2 (elim (Bool-cases (kind == 202)) [
            | inl e ↦ rw e (h3 e)
            | inr e3 ↦ rw e3 (elim (Bool-cases (kind == 203)) [
              | inl e ↦ rw e (h4 e)
              | inr e4 ↦
                  rw e4
                    (elim (Bool-cases (kind == 204)) [ inl e ↦ rw e (h5 e) | inr e5 ↦ rw e5 h6 ])
            ])
          ])
        ])
      ]

  parse_kind-Within :
      (head : RtcpHeader) (n : ℕ) (b : B)
      → length (view b) ≤ n
      → Within buf n (parse_kind buf is_utf8 head b)
  unfolding parse_kind
  parse_kind-Within head n b h =
      let zero_le : 0 ≤ n = omega arith in
      dispatch-Within n head.packet_type _ _ _ _ _ _ (
        λ is. Within-le buf 0 n _ (parse_sender_report-Within buf head b) zero_le,
        λ is. Within-le buf 0 n _ (parse_receiver_report-Within buf head b) zero_le,
        λ is. parse_source_description-Within head n b h,
        λ is. parse_good_bye-Within head n b h,
        λ is. Within-le buf 0 n _ (parse_application_defined-Within buf head b) zero_le,
        tt,
      )

  pub parse_kind-rest :
      (head : RtcpHeader) (b : B)
      → takes_the_rest head.packet_type ≡ true
      → Within buf 0 (parse_kind buf is_utf8 head b)
  unfolding parse_kind
  parse_kind-rest head b h = dispatch-Within 0 head.packet_type _ _ _ _ _ _ (
    λ is. parse_sender_report-Within buf head b,
    λ is. parse_receiver_report-Within buf head b,
    λ is. absurd (ground arith),
    λ is. absurd (ground arith),
    λ is. parse_application_defined-Within buf head b,
    tt,
  )

  pub parse_rtcp-Within :
      (n : ℕ) (b : B) → length (view b) ≤ 4 + n → Within buf n (parse_rtcp buf is_utf8 b)
  unfolding parse_rtcp
  parse_rtcp-Within n b h =
      >>=-Within buf n n _ _ (parse_header-Within buf n b h)
        (λ head r e. >>=-Within buf n n _ _ (parse_kind-Within head n r e) (λ kind s f. f))
