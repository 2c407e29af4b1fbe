-- ===== src/Transaction/Client/Final.antt =====
-- rssip/src/transaction/client.rs: `receive_final_response`, the ACK that it sends, and the task
-- that it leaves behind to absorb retransmitted responses.
use rssip.Prelude.{
  ℕ, ◌*◌, Bool, true, false, ◌&&◌, ◌||◌, Text, List, [], ◌∷◌, Option, none, some, within_below,
  if◌then◌else◌,
}
use rssip.Message.Method.{ack}
use rssip.Message.StatusCode.{as_u16}
use rssip.Message.Messages.{
  Request, IncomingResponse, incoming_request, incoming_response, OutgoingRequest, MandatoryHeaders,
  into_headers,
}
use rssip.Transaction.Fsm.{State, calling, proceeding, completed, terminated}
use rssip.Transaction.Timers.{t1, t4}
use rssip.Endpoint.Sending.{send_outgoing_request}
use rssip.Error.{channel_closed, Result, ok, err, panic}
use rssip.Transaction.Client.Wait.{
  ClientTransaction, Wake, arrives, closes, interval_elapses, deadline_elapses, Poll, ready,
  waiting, Receipt, client_state, set_client_state, is_invite, receive_response_if,
}
use rssip.Transaction.Client.Receive.{final}

-- The ACK for a final response other than 2xx: headers from the response, CSeq with method ACK.
abbrev pub ack_headers : MandatoryHeaders → MandatoryHeaders
ack_headers m = record m { cseq = record { cseq = m.cseq.cseq; method = ack } }

unfoldable pub create_ack_request : OutgoingRequest → IncomingResponse → Result OutgoingRequest
unfolding into_headers
create_ack_request o response =
    if within_below 300 699 (as_u16 response.response.code)
    then ok (record {
      request = record {
        method = ack;
        uri = o.request.uri;
        headers = into_headers (ack_headers response.incoming_info.mandatory_headers);
        body = none;
      };
      target = o.target;
      encoded = [];
    })
    else panic

-- What `tokio::spawn` is given: nothing, or the task with its ACK and the time that it lasts.
pub data Task : Type 0 where
  no_task : Task
  absorb : Option OutgoingRequest → ℕ → Task

pub record Finish : Type 0 where
  pub client : ClientTransaction
  pub sent : List Text
  pub rest : List Wake
  pub task : Task
  pub result : Poll (Result IncomingResponse)

-- `?` on the wait, and `ok_or(Error::ChannelClosed)`.
abbrev pub final_result : Poll (Result (Option IncomingResponse)) → Poll (Result IncomingResponse)
final_result waiting = waiting
final_result (ready (ok (some r))) = ready (ok r)
final_result (ready (ok none)) = ready (err channel_closed)
final_result (ready (err e)) = ready (err e)
final_result (ready panic) = ready panic

abbrev pub finish :
    ClientTransaction → List Text → List Wake → Task → Poll (Result IncomingResponse) → Finish
finish c sent rest task r = record { client = c; sent = sent; rest = rest; task = task; result = r }

-- `matches!(self.state(), State::Calling | State::Proceeding)`.
abbrev pub calling_or_proceeding : State → Bool
calling_or_proceeding calling = true
calling_or_proceeding proceeding = true
calling_or_proceeding _ = false

abbrev pub acknowledged :
    ClientTransaction
    → List Text
    → List Wake
    → IncomingResponse
    → Result (OutgoingRequest × List Text)
    → Finish
acknowledged c sent rest response (ok (q, sent')) =
    finish c sent' rest (absorb (some q) (64 * t1)) (ready (ok response))
acknowledged c sent rest response (err e) = finish c sent rest no_task (ready (err e))
acknowledged c sent rest response panic = finish c sent rest no_task (ready panic)

-- What ends a transaction at once: `self.is_reliable() || (is_invite_tsx && 2xx && state)`.
abbrev pub is_over : ClientTransaction → IncomingResponse → Bool
is_over c response =
    c.request.target.is_reliable
    || (is_invite c.request.request.method
        && within_below 200 299 (as_u16 response.response.code)
        && calling_or_proceeding (client_state c))

module _ (encode : Request → Option Text) where
  -- The ACK of a completed INVITE transaction, from `create_ack_request` to the spawned task.
  abbrev pub acknowledge :
      ClientTransaction → List Text → List Wake → IncomingResponse → Result OutgoingRequest → Finish
  acknowledge c sent rest response panic = finish c sent rest no_task (ready panic)
  acknowledge c sent rest response (err e) = finish c sent rest no_task (ready (err e))
  acknowledge c sent rest response (ok ack_request) =
      acknowledged c sent rest response (send_outgoing_request encode ack_request sent)

  abbrev pub complete_unless_over :
      ClientTransaction → List Text → List Wake → IncomingResponse → Finish
  complete_unless_over c sent rest response =
      if is_invite c.request.request.method
      then acknowledge c sent rest response (create_ack_request c.request response)
      else finish c sent rest (absorb none t4) (ready (ok response))

  -- From the test of reliability on, with the final response at hand.
  unfoldable pub complete : ClientTransaction → List Text → List Wake → IncomingResponse → Finish
  unfolding create_ack_request
  complete c sent rest response =
      if is_over c response
      then finish (set_client_state terminated c) sent rest no_task (ready (ok response))
      else complete_unless_over (set_client_state completed c) sent rest response

  abbrev pub finish_turn :
      Receipt (Option IncomingResponse) → Poll (Result IncomingResponse) → Finish
  finish_turn r (ready (ok response)) = complete r.client r.sent r.rest response
  finish_turn r p = finish r.client r.sent r.rest no_task p

  unfoldable pub receive_final_response : ClientTransaction → List Text → List Wake → Finish
  unfolding complete
  receive_final_response c sent wakes =
      let r = receive_response_if final encode c sent wakes in finish_turn r (final_result r.result)

  abbrev after_ack :
      OutgoingRequest
      → List Text
      → Result (OutgoingRequest × List Text)
      → Option OutgoingRequest × List Text
  after_ack a sent (ok (q, sent')) = (some q, sent')
  after_ack a sent (err e) = (some a, sent)
  after_ack a sent panic = (some a, sent)

  -- What a retransmitted response makes the task send; a failure is logged.
  abbrev pub send_ack : Option OutgoingRequest → List Text → Option OutgoingRequest × List Text
  send_ack none sent = (none, sent)
  send_ack (some a) sent = after_ack a sent (send_outgoing_request encode a sent)

  -- The spawned loop: it ends at a request, at the end of the channel and at the timer. The flag
  -- tells that it has ended.
  unfoldable pub absorb_loop :
      Option OutgoingRequest
      → ClientTransaction
      → List Text
      → List Wake
      → ClientTransaction × List Text × Bool
  absorb_loop a c sent [] = (c, sent, false)
  absorb_loop a c sent (arrives (incoming_response r) ∷ wakes) =
      let (a', sent') = send_ack a sent in absorb_loop a' c sent' wakes
  absorb_loop a c sent (interval_elapses ∷ wakes) = absorb_loop a c sent wakes
  absorb_loop a c sent (arrives (incoming_request r) ∷ wakes) =
      (set_client_state terminated c, sent, true)
  absorb_loop a c sent (closes ∷ wakes) = (set_client_state terminated c, sent, true)
  absorb_loop a c sent (deadline_elapses ∷ wakes) = (set_client_state terminated c, sent, true)
