-- ===== src/Endpoint/Sending/Responses.antt =====
-- What sending a response keeps, and that it does not panic by itself.
use rssip.Prelude.{◌≡◌, ◌≢◌, refl, Text, List, [], ◌∷◌, ◌++◌, Option, some, arith}
use rssip.Message.Messages.{Response, Transport, OutgoingResponse}
use rssip.Endpoint.Sending.{encode_response_if_empty, send_outgoing_response}
use rssip.Error.{Result, ok, err, panic, ◌>>=◌}

-- The endpoint's resolution and transports never panic.
abbrev pub Delivers : (OutgoingResponse → Result Transport) → Type 0
Delivers deliver = (q : OutgoingResponse) → deliver q ≢ panic

module _ (encode : Response → Option Text) (deliver : OutgoingResponse → Result Transport) where
  encode_response_if_empty-ne-panic :
      (r : OutgoingResponse) (l : Text) → encode_response_if_empty encode deliver r l ≢ panic
  encode_response_if_empty-ne-panic r [] e = ground arith
  encode_response_if_empty-ne-panic r (b ∷ bytes) e = cc

  abbrev after_delivery :
      Result Transport → OutgoingResponse → List Text → Result (OutgoingResponse × List Text)
  after_delivery m q sent = m >>= λ t. ok (record q { target = some t }, sent ++ q.encoded ∷ [])

  delivered-ne-panic :
      (m : Result Transport) (q : OutgoingResponse) (sent : List Text)
      → m ≢ panic
      → after_delivery m q sent ≢ panic
  delivered-ne-panic (ok t) q sent h e = cc
  delivered-ne-panic (err x) q sent h e = cc
  delivered-ne-panic panic q sent h e = h refl

  encoded-ne-panic :
      (m : Result OutgoingResponse) (sent : List Text)
      → Delivers deliver
      → m ≢ panic
      → (m >>= λ q. after_delivery (deliver q) q sent) ≢ panic
  encoded-ne-panic (ok q) sent delivers h e = delivered-ne-panic (deliver q) q sent (delivers q) e
  encoded-ne-panic (err x) sent delivers h e = cc
  encoded-ne-panic panic sent delivers h e = h refl

  pub send_outgoing_response-ne-panic :
      (r : OutgoingResponse) (sent : List Text)
      → Delivers deliver
      → send_outgoing_response encode deliver r sent ≢ panic
  unfolding send_outgoing_response
  send_outgoing_response-ne-panic r sent delivers e =
      encoded-ne-panic (encode_response_if_empty encode deliver r r.encoded) sent delivers
        (encode_response_if_empty-ne-panic r r.encoded) e

  -- The response goes out as it is; only its encoding and its target are filled in.
  pub send_outgoing_response-keeps :
      (r : OutgoingResponse) (sent : List Text) (q : OutgoingResponse) (sent' : List Text)
      → send_outgoing_response encode deliver r sent ≡ ok (q, sent')
      → (q.response ≡ r.response) × (sent' ≡ sent ++ q.encoded ∷ [])
  unfolding send_outgoing_response
  send_outgoing_response-keeps r sent q sent' e = ground arith
