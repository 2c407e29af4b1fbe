-- ===== src/Ua/Session/Calling.antt =====
-- rssip/src/ua/session/mod.rs: the side that calls, `send_invite` and `receive_answer`.
use rssip.Prelude.{ℕ, not, within, Text, List, [], ◌∷◌, ◌++◌, Option, none, some, if◌then◌else◌}
use rssip.Media.Sdp.{SessionDescription}
use rssip.Media.Negotiator.{
  NegotiatorState, initial, local_offered, Negotiator, new, set_remote_offer, set_local_offer,
  create_answer, process_answer,
}
use rssip.Media.Negotiator.Offering.{SdpOfferParams, create_offer}
use rssip.Message.Method.{invite, ack}
use rssip.Message.StatusCode.{as_u16}
use rssip.Message.Headers.{Uri, Via, allow, supported}
use rssip.Message.Messages.{Request, Transport, IncomingResponse, OutgoingRequest}
use rssip.Transaction.Registry.{Table}
use rssip.Transaction.Client.Wait.{Receipt, ClientTransaction, Wake, Poll, ready, waiting}
use rssip.Transaction.Client.Receive.{receive_provisional_response}
use rssip.Transaction.Client.Create.{send}
use rssip.Transaction.Client.Final.{Finish, receive_final_response}
use rssip.Endpoint.Sending.{send_outgoing_request}
use rssip.Ua.Dialog.{Dialog, Dialogs, create_uac, create_request}
use rssip.Ua.Dialog.Responses.{Settings, push_if, is_empty}
use rssip.Ua.Session.Negotiating.{
  Platform, parse_sdp, encode_sdp, new_sdp, negotiation_done, Established,
}
use rssip.Error.{custom, Result, ok, err, panic, ◌>>=◌}

pub record InvitationParams : Type 0 where
  pub from_uri : Uri
  pub to_uri : Uri
  pub contact : Option Uri
  pub sdp : Option SdpOfferParams

-- `Session<Calling>`.
pub record Calling : Type 0 where
  pub dialog : Dialog
  pub client : ClientTransaction
  pub negotiator : Negotiator

-- What is registered with a session, and what has been sent for it.
pub record Invited : Type 0 where
  pub session : Calling
  pub dialogs : Dialogs
  pub table : Table
  pub sent : List Text

-- The numbers of the origin of an offer, from `rand::random`.
pub record OriginIds : Type 0 where
  pub session_id : ℕ
  pub session_version : ℕ

-- An offer in the INVITE, if there are parameters for one.
unfoldable pub with_offer :
    Platform → Option SdpOfferParams → OriginIds → Request → Result (Negotiator × Request)
with_offer o none ids q = ok (new, q)
with_offer o (some p) ids q = do
  offer ← create_offer new p ids.session_id ids.session_version
  n ← set_local_offer new offer
  ok (n, record q { body = some (encode_sdp o offer); headers = q.headers ++ new_sdp ∷ [] })

-- The Allow and Supported headers of the INVITE.
abbrev pub with_settings : Settings → Request → Request
with_settings e q =
    let hs = push_if (not (is_empty e.allow)) (allow e.allow) q.headers in
    record q { headers = push_if (not (is_empty e.supported)) (supported e.supported) hs }

abbrev pub with_answer :
    Negotiator → Option SessionDescription → Result (Negotiator × SessionDescription)
with_answer n none = panic
with_answer n (some answer) = ok (n, answer)

-- An offer of ours that answers the one of a response, and the text of the answer.
unfoldable pub answer_late :
    Platform
    → Option SdpOfferParams
    → OriginIds
    → Negotiator
    → SessionDescription
    → Result (Negotiator × SessionDescription)
answer_late o none ids n remote = err custom
answer_late o (some p) ids n remote = do
  offer ← create_offer n p ids.session_id ids.session_version
  n ← set_local_offer n offer
  n ← set_remote_offer n remote
  n ← create_answer n
  with_answer n n.answer

-- By the state of the negotiator: what it becomes, and the body of the ACK.
unfoldable pub negotiated_in :
    Platform
    → Option SdpOfferParams
    → OriginIds
    → NegotiatorState
    → Negotiator
    → SessionDescription
    → Result (Negotiator × Option Text)
negotiated_in o p ids initial n remote = do
  (n, answer) ← answer_late o p ids n remote
  ok (n, some (encode_sdp o answer))
negotiated_in o p ids local_offered n remote = do n ← process_answer n remote; ok (n, none)
negotiated_in o p ids _ n remote = panic

unfoldable pub negotiated :
    Platform
    → Option SdpOfferParams
    → OriginIds
    → Negotiator
    → Option Text
    → Result (Negotiator × Option Text)
negotiated o p ids n none = ok (n, none)
negotiated o p ids n (some body) = do
  remote ← parse_sdp o body
  negotiated_in o p ids n.state n remote

-- The transaction and its task go on behind an answer.
pub record AnswerReceived : Type 0 where
  pub sent : List Text
  pub finish : Finish
  pub result : Poll (Result Established)

-- Behind the arm of a 2xx, with what had been sent before.
abbrev pub ended : Finish → Result (Established × List Text) → AnswerReceived
ended f (ok (x, sent)) = record { sent = sent; finish = f; result = ready (ok x) }
ended f (err e) = record { sent = f.sent; finish = f; result = ready (err e) }
ended f panic = record { sent = f.sent; finish = f; result = ready panic }

-- The `match` on the status code: all but a 2xx is `todo!()` or unreachable.
unfoldable pub answer_turn :
    (Option Text → List Text → Result (Established × List Text))
    → Finish
    → Poll (Result IncomingResponse)
    → AnswerReceived
answer_turn on_2xx f waiting = record { sent = f.sent; finish = f; result = waiting }
answer_turn on_2xx f (ready (err e)) = ended f (err e)
answer_turn on_2xx f (ready panic) = ended f panic
answer_turn on_2xx f (ready (ok response)) =
    if within 200 299 (as_u16 response.response.code)
    then ended f (on_2xx response.response.body f.sent)
    else ended f panic

module _ (encode : Request → Option Text) where
  -- `send_invite`: `create` makes an outgoing request. The dialog has the sequence number `number`.
  unfoldable pub send_invite :
      Platform
      → Settings
      → InvitationParams
      → OriginIds
      → (Transport → Text → Via)
      → (Request → Result OutgoingRequest)
      → Text
      → ℕ
      → Text
      → ℕ
      → Dialogs
      → Text
      → ℕ
      → ℕ
      → Table
      → List Text
      → Result Invited
  send_invite o e p ids via_of create tag number call channel dialogs fresh tsx_channel now table
        sent =
      let (d, dialogs) = create_uac p.from_uri p.to_uri p.contact tag number call channel dialogs in
      let (q, d) = create_request d invite number in
      with_offer o p.sdp ids (with_settings e q) >>= λ (n, q).
      send encode via_of create fresh tsx_channel now table sent q >>= λ started. ok (record {
        session = record { dialog = d; client = started.client; negotiator = n };
        dialogs = dialogs;
        table = started.table;
        sent = started.sent;
      })

  -- The ACK of a 2xx, with its body: what it leaves sent, and the dialog behind it.
  unfoldable pub acknowledge_2xx :
      (Request → Result OutgoingRequest)
      → Dialog
      → ℕ
      → Option Text
      → List Text
      → Result (Dialog × List Text)
  acknowledge_2xx create d random body sent =
      let (q, d) = create_request d ack random in
      create (record q { body = body }) >>= λ outgoing.
      send_outgoing_request encode outgoing sent >>= λ (a, sent). ok (d, sent)

  -- The arm of a 2xx.
  unfoldable pub answered_2xx :
      Platform
      → Option SdpOfferParams
      → OriginIds
      → (Request → Result OutgoingRequest)
      → Calling
      → ℕ
      → Option Text
      → List Text
      → Result (Established × List Text)
  answered_2xx o p ids create c random body sent =
      negotiated o p ids c.negotiator body >>= λ (n, ack_body). negotiation_done n >>= λ event.
      acknowledge_2xx create c.dialog random ack_body sent >>= λ (d, sent).
      ok (record { dialog = d; event = event }, sent)

  -- `receive_answer`: `create` makes an outgoing request of the ACK, and `random` is the number of a
  -- dialog without one.
  unfoldable pub receive_answer :
      Platform
      → Option SdpOfferParams
      → OriginIds
      → (Request → Result OutgoingRequest)
      → Calling
      → ℕ
      → List Text
      → List Wake
      → AnswerReceived
  receive_answer o p ids create c random sent wakes =
      let f = receive_final_response encode c.client sent wakes in
      answer_turn (λ body sent. answered_2xx o p ids create c random body sent) f f.result

  -- `receive_provisional`.
  unfoldable pub receive_provisional :
      Calling → List Text → List Wake → Calling × Receipt (Option IncomingResponse)
  receive_provisional c sent wakes =
      let r = receive_provisional_response encode c.client sent wakes in
      (record c { client = r.client }, r)
