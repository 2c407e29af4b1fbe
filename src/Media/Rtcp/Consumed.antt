-- ===== src/Media/Rtcp/Consumed.antt =====
-- rssip-media/src/rtcp: how many bytes the parsers leave.
use rssip.Prelude.{
  ℕ, zero, suc, ◌+◌, ◌≤◌, ◌≡◌, refl, inl, inr, ◌⊎◌, length, ltb, Bool-cases, Option-cases, arith,
}
use rssip.Error.{io, Result, ok, err, panic, ◌>>=◌}
use rssip.Media.Buffer.{Buf, get, try_get, try_copy, remaining, big_endian, read-length}
use rssip.Media.Rtp.{get_u32s}
use rssip.Media.Rtcp.{RtcpHeader}
use rssip.Media.Rtcp.Parsing.{
  times, parse_header, parse_reception_report, read_rest, parse_sender_report,
  parse_receiver_report, parse_application_defined,
}

module _ (buf : Buf) where
  open buf use {B, view, read}

  -- A parser that succeeds leaves at most `n` bytes.
  abbrev pub Within {ℓ} : {A : Type ℓ} → ℕ → Result (A × B) → Type 0
  Within n (ok (a, r)) = length (view r) ≤ n
  Within n (err e) = Unit
  Within n panic = Unit

  pub >>=-Within {ℓ κ} :
      {A : Type ℓ} {C : Type κ} (k n : ℕ) (m : Result (A × B)) (f : A × B → Result (C × B))
      → Within k m
      → ((a : A) (r : B) → length (view r) ≤ k → Within n (f (a, r)))
      → Within n (m >>= f)
  >>=-Within k n (ok (a, r)) f h g = g a r h
  >>=-Within k n (err e) f h g = tt
  >>=-Within k n panic f h g = tt

  pub Within-le {ℓ} : {A : Type ℓ} (k n : ℕ) (m : Result (A × B)) → Within k m → k ≤ n → Within n m
  Within-le k n (ok (a, r)) h le = omega arith
  Within-le k n (err e) h le = tt
  Within-le k n panic h le = tt

  pub try_copy-Within : (k n : ℕ) (b : B) → length (view b) ≤ k + n → Within n (try_copy buf k b)
  try_copy-Within k n b h = elim (Option-cases (read k b)) [
    | inl short ↦ rw short tt
    | inr ((bytes, r), got) ↦ rw got (omega (arith, read-length buf k b r bytes got))
  ]

  pub try_get-Within : (k n : ℕ) (b : B) → length (view b) ≤ k + n → Within n (try_get buf k b)
  try_get-Within k n b h = elim (Option-cases (read k b)) [
    | inl short ↦ rw short tt
    | inr ((bytes, r), got) ↦ rw got (omega (arith, read-length buf k b r bytes got))
  ]

  -- The error, or a value and the bytes behind it.
  pub try_get-cases :
      (k : ℕ) (b : B)
      → (try_get buf k b ≡ err io)
        ⊎ ((v : ℕ) × (r : B) × (try_get buf k b ≡ ok (v, r))
            × (length (view r) + k ≡ length (view b)))
  try_get-cases k b = elim (Option-cases (read k b)) [
    | inl short ↦ inl (rw short refl)
    | inr ((bytes, r), got) ↦
        inr (big_endian 0 bytes, r, rw got refl, read-length buf k b r bytes got)
  ]

  pub get-Within : (k n : ℕ) (b : B) → length (view b) ≤ k + n → Within n (get buf k b)
  get-Within k n b h = elim (Option-cases (read k b)) [
    | inl short ↦ rw short tt
    | inr ((bytes, r), got) ↦ rw got (omega (arith, read-length buf k b r bytes got))
  ]

  pub read_rest-Within : (b : B) → Within 0 (read_rest buf b)
  read_rest-Within b = try_copy-Within (remaining buf b) 0 b (omega arith)

  pub times-Within {ℓ} :
      {A : Type ℓ} (p : B → Result (A × B)) (k n : ℕ) (b : B)
      → ((b : B) → length (view b) ≤ n → Within n (p b))
      → length (view b) ≤ n
      → Within n (times buf p k b)
  unfolding times
  times-Within p zero n b each h = h
  times-Within p (suc k) n b each h =
      >>=-Within n n _ _ (each b h)
        (λ a r le. >>=-Within n n _ _ (times-Within p k n r each le) (λ more s le2. le2))

  pub get_u32s-Within : (k n : ℕ) (b : B) → length (view b) ≤ n → Within n (get_u32s buf k b)
  unfolding get_u32s
  get_u32s-Within zero n b h = h
  get_u32s-Within (suc k) n b h =
      >>=-Within n n _ _ (get-Within 4 n b (omega arith))
        (λ a r le. >>=-Within n n _ _ (get_u32s-Within k n r le) (λ more s le2. le2))

  -- A header takes four bytes.
  pub parse_header-Within :
      (n : ℕ) (b : B) → length (view b) ≤ 4 + n → Within n (parse_header buf b)
  unfolding parse_header
  parse_header-Within n b h =
      >>=-Within (3 + n) n _ _ (try_get-Within 1 (3 + n) b (omega arith)) (λ b0 r1 e1.
        >>=-Within (2 + n) n _ _ (try_get-Within 1 (2 + n) r1 (omega arith)) (λ kind r2 e2.
          >>=-Within n n _ _ (try_get-Within 2 n r2 (omega arith)) (λ size r3 e3. e3)))

  -- The step of a chain that reads `k` bytes by `get_…` or `try_get_…`, with the bound kept.
  then_get {κ} :
      {C : Type κ} (k n m : ℕ) (b : B) (f : ℕ × B → Result (C × B))
      → length (view b) ≤ n
      → ((v : ℕ) (r : B) → length (view r) ≤ n → Within m (f (v, r)))
      → Within m (get buf k b >>= f)
  then_get k n m b f h g = >>=-Within n m _ f (get-Within k n b (omega arith)) g

  then_try_get {κ} :
      {C : Type κ} (k n m : ℕ) (b : B) (f : ℕ × B → Result (C × B))
      → length (view b) ≤ n
      → ((v : ℕ) (r : B) → length (view r) ≤ n → Within m (f (v, r)))
      → Within m (try_get buf k b >>= f)
  then_try_get k n m b f h g = >>=-Within n m _ f (try_get-Within k n b (omega arith)) g

  parse_reception_report-Within :
      (n : ℕ) (b : B) → length (view b) ≤ n → Within n (parse_reception_report buf b)
  unfolding parse_reception_report
  parse_reception_report-Within n b h = elim (Bool-cases (ltb (remaining buf b) 24)) [
    | inl short ↦ rw short tt
    | inr enough ↦ rw enough (
        then_get 4 n n b _ h (λ v1 b h. then_get 1 n n b _ h (λ v2 b h.
          then_get 1 n n b _ h (λ v3 b h. then_get 1 n n b _ h (λ v4 b h.
            then_get 1 n n b _ h (λ v5 b h. then_get 4 n n b _ h (λ v6 b h.
              then_get 4 n n b _ h (λ v7 b h.
                then_get 4 n n b _ h (λ v8 b h. then_get 4 n n b _ h (λ v9 b h. h))))))))))
  ]

  -- What is behind a sender report, a receiver report or an application packet is read as a part
  -- of it.
  pub parse_sender_report-Within : (h : RtcpHeader) (b : B) → Within 0 (parse_sender_report buf h b)
  unfolding parse_sender_report
  parse_sender_report-Within h b =
      let n = length (view b) in
      let each = parse_reception_report-Within n in
      then_try_get 4 n 0 b _ (omega arith) (λ v1 b e. then_try_get 8 n 0 b _ e (λ v2 b e.
        then_try_get 4 n 0 b _ e (λ v3 b e. then_try_get 4 n 0 b _ e (λ v4 b e.
          then_try_get 4 n 0 b _ e (λ v5 b e.
            >>=-Within n 0 _ _ (times-Within _ h.count n b each e)
              (λ reports b e. >>=-Within 0 0 _ _ (read_rest-Within b) (λ rest r e. e)))))))

  pub parse_receiver_report-Within :
      (h : RtcpHeader) (b : B) → Within 0 (parse_receiver_report buf h b)
  unfolding parse_receiver_report
  parse_receiver_report-Within h b =
      let n = length (view b) in
      let each = parse_reception_report-Within n in
      then_try_get 4 n 0 b _ (omega arith) (λ v1 b e.
        >>=-Within n 0 _ _ (times-Within _ h.count n b each e)
          (λ reports b e. >>=-Within 0 0 _ _ (read_rest-Within b) (λ rest r e. e)))

  pub parse_application_defined-Within :
      (h : RtcpHeader) (b : B) → Within 0 (parse_application_defined buf h b)
  unfolding parse_application_defined
  parse_application_defined-Within h b =
      let n = length (view b) in
      then_try_get 4 n 0 b _ (omega arith) (λ v1 b e.
        >>=-Within n 0 _ _ (try_copy-Within 4 n b (omega arith))
          (λ label b e. >>=-Within 0 0 _ _ (read_rest-Within b) (λ rest r e. e)))
