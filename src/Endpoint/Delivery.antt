-- ===== src/Endpoint/Delivery.antt =====
-- rssip/src/endpoint/mod.rs: `Endpoint::send_response`, which looks for a transport that takes the
-- message. `send_msg` is that of a transport, to the socket address it was resolved to; `resolve`
-- is the resolver's, `select_transport` the transport layer's for one of its addresses.
use rssip.Prelude.{
  any, ◌||◌, ℕ, Bool, true, false, ◌≡◌, ◌≢◌, inl, inr, refl, arith, Text, List, [], ◌∷◌, Option,
  none, some, if◌then◌else◌, Bool-cases,
}
use rssip.Message.Messages.{Transport, OutgoingResponse}
use rssip.Error.{transport, Result, ok, err, panic}

module _ (send_msg : Transport → Text → Bool) (select_transport : ℕ → Result Transport) where
  abbrev pub takes : Result Transport → Text → Bool
  takes (ok t) bytes = send_msg t bytes
  takes (err e) bytes = false
  takes panic bytes = false

  -- One turn of the loop over the addresses, in front of the rest of it.
  abbrev first_taking : Result Transport → Text → Result Transport → Result Transport
  first_taking (ok selected) bytes rest = if send_msg selected bytes then ok selected else rest
  first_taking (err e) bytes rest = rest
  first_taking panic bytes rest = panic

  unfoldable pub try_addresses : Text → List ℕ → Result Transport
  try_addresses bytes [] = err transport
  try_addresses bytes (addr ∷ addresses) =
      first_taking (select_transport addr) bytes (try_addresses bytes addresses)

  module _ (resolve : OutgoingResponse → Result (List ℕ)) where
    abbrev resolve_and_try : OutgoingResponse → Result (List ℕ) → Result Transport
    resolve_and_try q (ok addresses) = try_addresses q.encoded addresses
    resolve_and_try q (err e) = err e
    resolve_and_try q panic = panic

    abbrev known_first : OutgoingResponse → Option Transport → Result Transport
    known_first q none = resolve_and_try q (resolve q)
    known_first q (some t) = if send_msg t q.encoded then ok t else resolve_and_try q (resolve q)

    unfoldable pub send_response : OutgoingResponse → Result Transport
    unfolding try_addresses
    send_response q = known_first q q.target

  first_taking-takes :
      (m : Result Transport) (bytes : Text) (rest : Result Transport) (t : Transport)
      → (rest ≡ ok t → send_msg t bytes ≡ true)
      → first_taking m bytes rest ≡ ok t
      → send_msg t bytes ≡ true
  first_taking-takes (ok u) bytes rest t later e = elim (Bool-cases (send_msg u bytes)) [
    | inl took ↦ let same = rw took at e in ground (arith, took, same)
    | inr not_taken ↦ later (rw not_taken at e)
  ]
  first_taking-takes (err x) bytes rest t later e = later e
  first_taking-takes panic bytes rest t later e = cc

  try_addresses-takes :
      (bytes : Text) (addresses : List ℕ) (t : Transport)
      → try_addresses bytes addresses ≡ ok t
      → send_msg t bytes ≡ true
  unfolding try_addresses
  try_addresses-takes bytes [] t e = cc
  try_addresses-takes bytes (addr ∷ addresses) t e =
      first_taking-takes (select_transport addr) bytes (try_addresses bytes addresses) t
        (try_addresses-takes bytes addresses t) e

  abbrev pub NeverPanics : Type 0
  NeverPanics = (addr : ℕ) → select_transport addr ≢ panic

  first_taking-found :
      (m : Result Transport) (bytes : Text) (rest : Result Transport) (found : Bool)
      → m ≢ panic
      → (found ≡ true → (t : Transport) × (rest ≡ ok t))
      → (takes m bytes || found) ≡ true
      → (t : Transport) × (first_taking m bytes rest ≡ ok t)
  first_taking-found (ok u) bytes rest found never later h = elim (Bool-cases (send_msg u bytes)) [
    | inl took ↦ (u, rw took)
    | inr not_taken ↦ let (t, e) = later (rw not_taken at h) in (t, rw not_taken e)
  ]
  first_taking-found (err x) bytes rest found never later h = later h
  first_taking-found panic bytes rest found never later h = absurd (never refl)

  -- An address whose transport takes the message is enough.
  try_addresses-found :
      (bytes : Text) (addresses : List ℕ)
      → NeverPanics
      → any (λ addr. takes (select_transport addr) bytes) addresses ≡ true
      → (t : Transport) × (try_addresses bytes addresses ≡ ok t)
  unfolding try_addresses
  try_addresses-found bytes [] never h = cc
  try_addresses-found bytes (addr ∷ addresses) never h =
      first_taking-found (select_transport addr) bytes (try_addresses bytes addresses)
        (any (λ a. takes (select_transport a) bytes) addresses) (never addr)
        (try_addresses-found bytes addresses never) h

  module _ (resolve : OutgoingResponse → Result (List ℕ)) where
    resolve_and_try-takes :
        (q : OutgoingResponse) (m : Result (List ℕ)) (t : Transport)
        → resolve_and_try resolve q m ≡ ok t
        → send_msg t q.encoded ≡ true
    resolve_and_try-takes q (ok addresses) t e = try_addresses-takes q.encoded addresses t e
    resolve_and_try-takes q (err x) t e = cc
    resolve_and_try-takes q panic t e = cc

    known_first-takes :
        (q : OutgoingResponse) (o : Option Transport) (t : Transport)
        → known_first resolve q o ≡ ok t
        → send_msg t q.encoded ≡ true
    known_first-takes q none t e = resolve_and_try-takes q (resolve q) t e
    known_first-takes q (some u) t e = elim (Bool-cases (send_msg u q.encoded)) [
      | inl took ↦ let same = rw took at e in ground (arith, took, same)
      | inr not_taken ↦ resolve_and_try-takes q (resolve q) t (rw not_taken at e)
    ]

    -- A response that is reported sent was taken by the transport that is kept for it, the known
    -- one or one that was resolved.
    pub send_response-takes :
        (q : OutgoingResponse) (t : Transport)
        → send_response resolve q ≡ ok t
        → send_msg t q.encoded ≡ true
    unfolding send_response
    send_response-takes q t e = known_first-takes q q.target t e

    known_first-found :
        (q : OutgoingResponse) (o : Option Transport) (addresses : List ℕ)
        → NeverPanics
        → resolve q ≡ ok addresses
        → any (λ addr. takes (select_transport addr) q.encoded) addresses ≡ true
        → (t : Transport) × (known_first resolve q o ≡ ok t)
    known_first-found q none addresses never e h =
        let (t, found) = try_addresses-found q.encoded addresses never h in (t, rw e found)
    known_first-found q (some u) addresses never e h = elim (Bool-cases (send_msg u q.encoded)) [
      | inl took ↦ (u, rw took)
      | inr not_taken ↦
          let (t, found) = try_addresses-found q.encoded addresses never h in
          (t, rw (not_taken, e) found)
    ]

    -- If selecting a transport never panics, a response is sent whenever the transport of one of the
    -- resolved addresses takes it, no matter which ones fail before, the known one included.
    pub send_response-found :
        (q : OutgoingResponse) (addresses : List ℕ)
        → NeverPanics
        → resolve q ≡ ok addresses
        → any (λ addr. takes (select_transport addr) q.encoded) addresses ≡ true
        → (t : Transport) × (send_response resolve q ≡ ok t)
    unfolding send_response
    send_response-found q addresses never e h = known_first-found q q.target addresses never e h
