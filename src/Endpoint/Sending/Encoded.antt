-- ===== src/Endpoint/Sending/Encoded.antt =====
-- What sending a request adds to the bytes on the wire.
use rssip.Prelude.{
  ℕ, suc, ◌≡◌, ◌≢◌, refl, Text, List, [], ◌∷◌, ◌++◌, Option, none, some, length, length-concat,
  arith,
}
use rssip.Message.Messages.{Request, OutgoingRequest}
use rssip.Endpoint.Sending.{keep_encoded, encode_if_empty, send_outgoing_request}
use rssip.Error.{Error, io, ok, err, panic, >>=-eq-ok}

module _ (encode : Request → Option Text) where
  -- A request that has been encoded goes out with the same bytes, and stays as it is.
  pub send_outgoing_request-encoded :
      (r : OutgoingRequest) (sent : List Text) (b : ℕ) (bytes : Text)
      → r.encoded ≡ b ∷ bytes
      → send_outgoing_request encode r sent ≡ ok (r, sent ++ r.encoded ∷ [])
  unfolding send_outgoing_request
  send_outgoing_request-encoded r sent b bytes e = ground arith

  -- A request that is sent adds one message.
  pub send_outgoing_request-length :
      (r : OutgoingRequest) (sent : List Text) {q : OutgoingRequest} {sent' : List Text}
      → send_outgoing_request encode r sent ≡ ok (q, sent')
      → length sent' ≡ suc (length sent)
  unfolding send_outgoing_request
  send_outgoing_request-length r sent e =
      let (q, _, same) =
        >>=-eq-ok (encode_if_empty encode r r.encoded)
          (λ (q : OutgoingRequest). ok (q, sent ++ q.encoded ∷ [])) e in
      ground (arith, length-concat sent q.encoded)

  -- Sending changes nothing of the request but its encoding.
  pub send_outgoing_request-keeps :
      (r : OutgoingRequest) (sent : List Text) {q : OutgoingRequest} {sent' : List Text}
      → send_outgoing_request encode r sent ≡ ok (q, sent')
      → (q.request ≡ r.request) × (q.target ≡ r.target)
  unfolding send_outgoing_request
  send_outgoing_request-keeps r sent e = ground arith

  -- The only error of sending a request is that of its encoding, and it never panics.
  pub send_outgoing_request-err :
      (r : OutgoingRequest) (sent : List Text)
      → ((e : Error) → send_outgoing_request encode r sent ≡ err e → e ≡ io)
        × (send_outgoing_request encode r sent ≢ panic)
  unfolding send_outgoing_request
  send_outgoing_request-err r sent = (λ e h. ground arith, λ h. ground arith)

-- An encoding that never fails.
abbrev pub Total : (Request → Option Text) → Type 0
Total encode = (r : Request) → (t : Text) × (encode r ≡ some t)

-- The bytes of an outgoing request: those that it holds, or else its encoding.
abbrev bytes_in : Option Text → Text → Option Text
bytes_in fresh [] = fresh
bytes_in fresh (b ∷ bytes) = some (b ∷ bytes)

abbrev pub bytes_of : (Request → Option Text) → OutgoingRequest → Option Text
bytes_of encode r = bytes_in (encode r.request) r.encoded

module _ (encode : Request → Option Text) where
  kept_encoding :
      (r q : OutgoingRequest) (t : Option Text)
      → keep_encoded encode r t ≡ ok q
      → t ≡ some q.encoded
  kept_encoding r q none e = cc
  kept_encoding r q (some t) e = cc

  bytes_in-sent :
      (r q : OutgoingRequest) (l : Text)
      → l ≡ r.encoded
      → encode_if_empty encode r l ≡ ok q
      → bytes_in (encode r.request) l ≡ some q.encoded
  bytes_in-sent r q [] same e = kept_encoding r q (encode r.request) e
  bytes_in-sent r q (b ∷ bytes) same e = cc

  -- A request that is sent adds its bytes to what was sent.
  pub send_outgoing_request-bytes :
      (r : OutgoingRequest) (sent : List Text) {q : OutgoingRequest} {sent' : List Text}
      → send_outgoing_request encode r sent ≡ ok (q, sent')
      → (bytes : Text) × (bytes_of encode r ≡ some bytes) × (sent' ≡ sent ++ bytes ∷ [])
  unfolding send_outgoing_request
  send_outgoing_request-bytes r sent e =
      let (q, got, same) =
        >>=-eq-ok (encode_if_empty encode r r.encoded)
          (λ (q : OutgoingRequest). ok (q, sent ++ q.encoded ∷ [])) e in
      (q.encoded, bytes_in-sent r q r.encoded refl got, cc)

  -- A request without an encoding of its own is sent as it is encoded.
  pub send_fresh :
      (r : OutgoingRequest) (sent : List Text) (t : Text)
      → r.encoded ≡ []
      → encode r.request ≡ some t
      → send_outgoing_request encode r sent ≡ ok (record r { encoded = t }, sent ++ t ∷ [])
  unfolding send_outgoing_request
  send_fresh r sent t empty e = rw (empty, e) refl
