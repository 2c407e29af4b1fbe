-- ===== src/Endpoint/Sending.antt =====
-- rssip/src/endpoint/mod.rs: sending a request or a response. Neither of the endpoint's own
-- plugins overrides `outgoing_request` or `outgoing_response`, so their loop does nothing here.
pub mod Encoded
pub mod Responses
use rssip.Prelude.{Text, List, [], ◌∷◌, ◌++◌, Option, none, some}
use rssip.Message.Messages.{Request, Response, Transport, OutgoingRequest, OutgoingResponse}
use rssip.Error.{Result, ok, err, io, ◌>>=◌}

-- `encode` is `Encode::encode`; `none` is its I/O error.
module _ (encode : Request → Option Text) where
  abbrev keep_encoded : OutgoingRequest → Option Text → Result OutgoingRequest
  keep_encoded r none = err io
  keep_encoded r (some bytes) = ok (record r { encoded = bytes })

  -- `if request.encoded.is_empty()`.
  abbrev encode_if_empty : OutgoingRequest → Text → Result OutgoingRequest
  encode_if_empty r [] = keep_encoded r (encode r.request)
  encode_if_empty r (b ∷ bytes) = ok r

  -- A failure of the transport is logged and is no error. `sent` is what the transports were given.
  unfoldable pub send_outgoing_request :
      OutgoingRequest → List Text → Result (OutgoingRequest × List Text)
  send_outgoing_request r sent = do q ← encode_if_empty r r.encoded; ok (q, sent ++ q.encoded ∷ [])

-- `deliver` is `Endpoint::send_response`: it resolves and tries the transports, and gives the one
-- that took the message, or an error.
module _ (encode : Response → Option Text) (deliver : OutgoingResponse → Result Transport) where
  abbrev keep_encoded_response : OutgoingResponse → Option Text → Result OutgoingResponse
  keep_encoded_response r none = err io
  keep_encoded_response r (some bytes) = ok (record r { encoded = bytes })

  abbrev pub encode_response_if_empty : OutgoingResponse → Text → Result OutgoingResponse
  encode_response_if_empty r [] = keep_encoded_response r (encode r.response)
  encode_response_if_empty r (b ∷ bytes) = ok r

  unfoldable pub send_outgoing_response :
      OutgoingResponse → List Text → Result (OutgoingResponse × List Text)
  send_outgoing_response r sent = do
    q ← encode_response_if_empty r r.encoded
    t ← deliver q
    ok (record q { target = some t }, sent ++ q.encoded ∷ [])
