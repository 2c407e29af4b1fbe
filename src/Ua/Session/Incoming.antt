-- ===== src/Ua/Session/Incoming.antt =====
-- rssip/src/ua/session/mod.rs: the side that is called, `from_invite`, `progress` and `accept`.
use rssip.Prelude.{ℕ, Text, List, [], ◌∷◌, ◌++◌, Option, none, some, if◌then◌else◌}
use rssip.Media.Sdp.{SessionDescription}
use rssip.Media.Negotiator.{
  NegotiatorState, local_offered, remote_offered, Negotiator, new, set_remote_offer,
  set_local_offer, create_answer, process_answer,
}
use rssip.Media.Negotiator.Offering.{SdpOfferParams, create_offer}
use rssip.Message.StatusCode.{StatusCode}
use rssip.Message.Headers.{Contact}
use rssip.Message.Messages.{Response, Transport, IncomingRequest, OutgoingResponse}
use rssip.Transaction.Client.Wait.{is_invite}
use rssip.Transaction.Registry.{Table}
use rssip.Transaction.Server.Respond.{ServerTransaction, Served, create}
use rssip.Transaction.Server.Final.{Finished, send_final_response}
use rssip.Ua.Dialog.{Dialog, Dialogs, create_uas}
use rssip.Ua.Dialog.Receiving.{WaitEvent, Received, wait_for_ack}
use rssip.Ua.Dialog.Responses.{Settings, dialog_create_response, provisional_response}
use rssip.Ua.Session.Negotiating.{
  Platform, parse_sdp, encode_sdp, new_sdp, negotiation_done, Established,
}
use rssip.Error.{custom, Result, ok, err, panic, ◌>>=◌}

-- `Session<Incoming>`.
pub record Incoming : Type 0 where
  pub dialog : Dialog
  pub server : ServerTransaction
  pub negotiator : Negotiator

-- What is registered with a session: its dialog and its transaction.
pub record Opened : Type 0 where
  pub session : Incoming
  pub dialogs : Dialogs
  pub table : Table

-- An early offer, if there is a body.
unfoldable pub early_offer : Platform → Option Text → Result Negotiator
early_offer o none = ok new
early_offer o (some body) = do remote ← parse_sdp o body; set_remote_offer new remote

unfoldable pub open_session :
    Platform → IncomingRequest → Contact → Text → ℕ → Dialogs → ℕ → Table → Result Opened
open_session o r own tag channel dialogs tsx_channel table = do
  (d, dialogs) ← create_uas r own tag channel dialogs
  n ← early_offer o r.request.body
  (s, table) ← create r tsx_channel table
  ok (record {
    session = record { dialog = d; server = s; negotiator = n };
    dialogs = dialogs;
    table = table;
  })

-- With the tag and the channel of the dialog, and the channel of the transaction.
unfoldable pub from_invite :
    Platform → IncomingRequest → Contact → Text → ℕ → Dialogs → ℕ → Table → Result Opened
from_invite o r own tag channel dialogs tsx_channel table =
    if is_invite r.request.method
    then open_session o r own tag channel dialogs tsx_channel table
    else err custom

-- The negotiator behind the answer, and the text of its answer.
abbrev pub answer_text :
    Platform → Negotiator → Option SessionDescription → Result (Negotiator × Text)
answer_text o n none = panic
answer_text o n (some answer) = ok (n, encode_sdp o answer)

-- The `if` on the state, with our offer.
unfoldable pub our_sdp :
    Platform → NegotiatorState → Negotiator → SessionDescription → Result (Negotiator × Text)
our_sdp o remote_offered n offer = do
  n ← set_local_offer n offer
  n ← create_answer n
  answer_text o n n.answer
our_sdp o _ n offer = do n ← set_local_offer n offer; ok (n, encode_sdp o offer)

abbrev pub with_sdp : OutgoingResponse → Text → OutgoingResponse
with_sdp r sdp = record r {
  response = record r.response { body = some sdp; headers = r.response.headers ++ new_sdp ∷ [] };
}

-- What `accept` sends: the response, and the negotiator behind it.
unfoldable pub acceptance :
    Platform
    → Settings
    → Incoming
    → StatusCode
    → Option Text
    → SdpOfferParams
    → ℕ
    → ℕ
    → Result (Negotiator × OutgoingResponse)
acceptance o e i code reason p session_id session_version = do
  r ← dialog_create_response e i.dialog i.server code reason
  offer ← create_offer i.negotiator p session_id session_version
  (n, sdp) ← our_sdp o i.negotiator.state i.negotiator offer
  ok (n, with_sdp r sdp)

-- An ACK must carry the answer to an offer of ours.
unfoldable pub take_answer :
    Platform → NegotiatorState → Negotiator → Option Text → Result Negotiator
take_answer o local_offered n none = err custom
take_answer o local_offered n (some body) = do answer ← parse_sdp o body; process_answer n answer
take_answer o _ n body = ok n

-- Behind `wait_for_ack`.
unfoldable pub established : Platform → Negotiator → Received → Result Established
established o n w = do
  ack ← w.result
  n ← take_answer o n.state n ack.request.body
  event ← negotiation_done n
  ok (record { dialog = w.dialog; event = event })

pub record Accepted : Type 0 where
  pub sent : List Text
  pub result : Result Established

module _ (encode : Response → Option Text) (deliver : OutgoingResponse → Result Transport) where
  -- `progress`: the session, and what its transaction has done.
  unfoldable pub progress :
      Settings → Incoming → StatusCode → Option Text → List Text → Result (Incoming × Served)
  progress e i code reason sent = do
    (d, served) ← provisional_response encode deliver e i.dialog i.server code reason sent
    ok (record i { dialog = d; server = served.server }, served)

  module _ (o : Platform) where
    unfoldable pub after_final :
        Negotiator → Dialog → List WaitEvent → Finished → Result (Unit {0}) → Accepted
    after_final n d events f (ok done) =
        let w = wait_for_ack encode deliver d events f.sent in
        record { sent = w.sent; result = established o n w }
    after_final n d events f (err e) = record { sent = f.sent; result = err e }
    after_final n d events f panic = record { sent = f.sent; result = panic }

    unfoldable pub answer_invite :
        Incoming → List WaitEvent → List Text → Result (Negotiator × OutgoingResponse) → Accepted
    answer_invite i events sent (ok (n, r)) =
        let f = send_final_response encode deliver i.server r sent in
        after_final n i.dialog events f f.result
    answer_invite i events sent (err e) = record { sent = sent; result = err e }
    answer_invite i events sent panic = record { sent = sent; result = panic }

    unfoldable pub accept :
        Settings
        → Incoming
        → StatusCode
        → Option Text
        → SdpOfferParams
        → ℕ
        → ℕ
        → List WaitEvent
        → List Text
        → Accepted
    accept e i code reason p session_id session_version events sent =
        answer_invite i events sent (acceptance o e i code reason p session_id session_version)
