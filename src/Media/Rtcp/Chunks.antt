-- ===== src/Media/Rtcp/Chunks.antt =====
-- rssip-media/src/rtcp/packet.rs, `SourceDescriptionChunk::parse`: the loop over the items ends.
use rssip.Prelude.{
  ℕ, zero, suc, ◌≡◌, ◌≢◌, refl, ap, inl, inr, Bool, Text, List, Option, none, some, length, ◌==◌,
  Bool-cases, Option-cases, arith,
}
use rssip.Error.{Result, ok, err, panic, ◌>>=◌}
use rssip.Media.Buffer.{Buf, try_get, try_copy, remaining}
use rssip.Media.Rtcp.{SdesItem, sdes_item}
use rssip.Media.Rtcp.Parsing.{
  read_string, of_kind, parse_item, parse_items, parse_chunk, next, settled, pushed,
}
use rssip.Media.Rtcp.Consumed.{try_get-cases}
use rssip.Media.Rtcp.Kinds.{parse_items-Settles}

>>=-ne-panic {ℓ κ} :
    {A : Type ℓ} {C : Type κ} (m : Result A) (f : A → Result C)
    → m ≢ panic
    → ((a : A) → f a ≢ panic)
    → (m >>= f) ≢ panic
>>=-ne-panic (ok a) f h g = g a
>>=-ne-panic (err e) f h g = λ e. cc
>>=-ne-panic panic f h g = absurd (h refl)

next-ne-panic {ℓ κ} :
    {A : Type ℓ} {C : Type κ} (m : Result A) (f : A → Option (Result C))
    → m ≢ panic
    → ((a : A) → f a ≢ some panic)
    → next m f ≢ some panic
next-ne-panic (ok a) f h g = g a
next-ne-panic (err e) f h g = λ e. cc
next-ne-panic panic f h g = absurd (h refl)

module _ (buf : Buf) (is_utf8 : Text → Bool) where
  open buf use {B, view, read}

  pushed-ne-panic {ℓ} :
      {A : Type ℓ} (a : A) (loop : Option (Result (List A × B)))
      → loop ≢ some panic
      → pushed buf a loop ≢ some panic
  pushed-ne-panic a none h = λ e. cc
  pushed-ne-panic a (some (ok (more, b))) h = λ e. cc
  pushed-ne-panic a (some (err x)) h = λ e. cc
  pushed-ne-panic a (some panic) h = absurd (h refl)

  try_copy-ne-panic : (n : ℕ) (b : B) → try_copy buf n b ≢ panic
  try_copy-ne-panic n b = elim (Option-cases (read n b)) [
    | inl short ↦ rw short (λ e. cc)
    | inr (got, e) ↦ rw e (λ e. cc)
  ]

  try_get-ne-panic : (n : ℕ) (b : B) → try_get buf n b ≢ panic
  try_get-ne-panic n b = elim (try_get-cases buf n b) [
    | inl short ↦ rw short (λ e. cc)
    | inr (v, r, got, size) ↦ rw got (λ e. cc)
  ]

  read_string-ne-panic : (n : ℕ) (b : B) → read_string buf is_utf8 n b ≢ panic
  unfolding read_string
  read_string-ne-panic n b =
      >>=-ne-panic (try_copy buf n b) _ (try_copy-ne-panic n b) (λ (bytes, r).
        elim (Bool-cases (is_utf8 bytes)) [
          | inl good ↦ rw good (λ e. cc)
          | inr bad ↦ rw bad (λ e. cc)
        ])

  of_kind-ne-panic : (item : Option SdesItem) (b : B) → of_kind buf is_utf8 item b ≢ panic
  of_kind-ne-panic none b = λ e. cc
  of_kind-ne-panic (some item) b = λ e. cc

  parse_item-ne-panic : (kind : ℕ) (b : B) → parse_item buf is_utf8 kind b ≢ panic
  unfolding parse_item
  parse_item-ne-panic kind b = >>=-ne-panic (try_get buf 1 b) _ (try_get-ne-panic 1 b) (λ (size, r).
      >>=-ne-panic (read_string buf is_utf8 size r) _ (read_string-ne-panic size r)
        (λ (text, s). of_kind-ne-panic (sdes_item kind text) s))

  parse_items-ne-panic : (fuel : ℕ) (b : B) → parse_items buf is_utf8 fuel b ≢ some panic
  unfolding parse_items
  parse_items-ne-panic zero b = λ e. cc
  parse_items-ne-panic (suc fuel) b =
      next-ne-panic (try_get buf 1 b) _ (try_get-ne-panic 1 b) (λ (kind, r).
        elim (Bool-cases (kind == 0)) [
          | inl end ↦ rw end (λ e. cc)
          | inr item ↦ rw item (
              next-ne-panic (parse_item buf is_utf8 kind r) _ (parse_item-ne-panic kind r)
                (λ (i, s). pushed-ne-panic i _ (parse_items-ne-panic fuel s)))
        ])

  settled-ne-panic {ℓ} :
      {A : Type ℓ} (loop : Option (Result A)) (m : Result A)
      → loop ≡ some m
      → loop ≢ some panic
      → settled loop ≢ panic
  settled-ne-panic none m e h = cc
  settled-ne-panic (some r) m e h = λ p. h (ap some p)

  -- The items have fuel enough, so nothing of a chunk panics.
  pub parse_chunk-ne-panic : (b : B) → parse_chunk buf is_utf8 b ≢ panic
  unfolding parse_chunk
  parse_chunk-ne-panic b = >>=-ne-panic (try_get buf 4 b) _ (try_get-ne-panic 4 b) (λ (source, r).
      let fuel = suc (remaining buf r) in
      let (m, e, h) =
        parse_items-Settles buf is_utf8 fuel (length (view r)) r (omega arith) (omega arith) in
      >>=-ne-panic (settled (parse_items buf is_utf8 fuel r)) _
        (settled-ne-panic (parse_items buf is_utf8 fuel r) m e (parse_items-ne-panic fuel r))
        (λ (items, s) p. cc))
