-- ===== src/Transaction/Client/Ack.antt =====
-- When a client transaction acknowledges the final response, and what it resends afterwards.
use mathlib.Core.List.{append-nil, append_assoc}
use rssip.Prelude.{
  ℕ, suc, ◌≡◌, refl, sym, ◌∙◌, Bool, true, not, ◌&&◌, Text, List, [], ◌∷◌, ◌++◌, Option, none, some,
  leb, replicate,
}
use rssip.Message.Method.{ack}
use rssip.Message.Headers.{via, from_header, to, call_id, cseq}
use rssip.Message.StatusCode.{StatusCode, as_u16}
use rssip.Message.Messages.{
  Request, IncomingResponse, incoming_request, incoming_response, OutgoingRequest,
}
use rssip.Transaction.Fsm.{terminated, set_state}
use rssip.Transaction.Client.Wait.{
  ClientTransaction, Wake, arrives, closes, interval_elapses, deadline_elapses, client_state,
  is_invite,
}
use rssip.Transaction.Client.Final.{absorb_loop}
use rssip.Endpoint.Sending.Encoded.{send_outgoing_request-encoded}

-- The final responses that are acknowledged: those of an INVITE from 300 on, and only where the
-- transport is unreliable.
abbrev pub needs_ack : ClientTransaction → IncomingResponse → Bool
needs_ack c r =
    is_invite c.request.request.method
    && leb 300 (as_u16 r.response.code)
    && not c.request.target.is_reliable

-- The ACK of such a response: the URI of the INVITE, the mandatory headers of the response with ACK
-- as the method of the CSeq, and no body.
abbrev pub ack_of : Request → IncomingResponse → Request
ack_of invited response =
    let m = response.incoming_info.mandatory_headers in
    record {
      method = ack;
      uri = invited.uri;
      headers =
          via m.via
          ∷ from_header m.from
          ∷ to m.to
          ∷ call_id m.call_id
          ∷ cseq (record { cseq = m.cseq.cseq; method = ack })
          ∷ [];
      body = none;
    }

-- How many responses the task reads before what ends it.
abbrev pub retransmitted : List Wake → ℕ
retransmitted [] = 0
retransmitted (arrives (incoming_response r) ∷ wakes) = suc (retransmitted wakes)
retransmitted (interval_elapses ∷ wakes) = retransmitted wakes
retransmitted (w ∷ wakes) = 0

module _ (encode : Request → Option Text) where
  absorb_loop-ack :
      (a : OutgoingRequest) (b : ℕ) (bytes : Text) (c : ClientTransaction) (sent : List Text)
      (wakes : List Wake)
      → a.encoded ≡ b ∷ bytes
      → let (c', sent', done) = absorb_loop encode (some a) c sent wakes in
        (sent' ≡ sent ++ replicate (retransmitted wakes) a.encoded)
        × (done ≡ true → client_state c' ≡ terminated)
  unfolding absorb_loop set_state
  absorb_loop-ack a b bytes c sent [] e = (sym (append-nil sent), λ h. cc)
  absorb_loop-ack a b bytes c sent (arrives (incoming_request r) ∷ wakes) e =
      (sym (append-nil sent), λ h. refl)
  absorb_loop-ack a b bytes c sent (closes ∷ wakes) e = (sym (append-nil sent), λ h. refl)
  absorb_loop-ack a b bytes c sent (deadline_elapses ∷ wakes) e = (sym (append-nil sent), λ h. refl)
  absorb_loop-ack a b bytes c sent (interval_elapses ∷ wakes) e =
      absorb_loop-ack a b bytes c sent wakes e
  absorb_loop-ack a b bytes c sent (arrives (incoming_response r) ∷ wakes) e =
      let (more, over) = absorb_loop-ack a b bytes c (sent ++ a.encoded ∷ []) wakes e in
      rw (send_outgoing_request-encoded encode a sent b bytes e, absorb_loop)
        (
          more ∙ append_assoc sent (a.encoded ∷ []) (replicate (retransmitted wakes) a.encoded),
          over,
        )

  absorb_loop_silent :
      (c : ClientTransaction) (sent : List Text) (wakes : List Wake)
      → let (c', sent', done) = absorb_loop encode none c sent wakes in
        (sent' ≡ sent) × (done ≡ true → client_state c' ≡ terminated)
  unfolding absorb_loop set_state
  absorb_loop_silent c sent [] = (refl, λ h. cc)
  absorb_loop_silent c sent (arrives (incoming_request r) ∷ wakes) = (refl, λ h. refl)
  absorb_loop_silent c sent (closes ∷ wakes) = (refl, λ h. refl)
  absorb_loop_silent c sent (deadline_elapses ∷ wakes) = (refl, λ h. refl)
  absorb_loop_silent c sent (interval_elapses ∷ wakes) = absorb_loop_silent c sent wakes
  absorb_loop_silent c sent (arrives (incoming_response r) ∷ wakes) =
      absorb_loop_silent c sent wakes

  module _ (a : OutgoingRequest) (b : ℕ) (bytes : Text) (c : ClientTransaction) (sent : List Text)
      (wakes : List Wake) (encoded : a.encoded ≡ b ∷ bytes) where
    -- The task that holds an encoded ACK sends it again, byte for byte, once for each response
    -- that it reads before it ends, and nothing else.
    pub absorb_loop_resends :
        let (c', sent', done) = absorb_loop encode (some a) c sent wakes in
        sent' ≡ sent ++ replicate (retransmitted wakes) a.encoded
    absorb_loop_resends = (absorb_loop-ack a b bytes c sent wakes encoded).0
