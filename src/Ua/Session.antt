-- ===== src/Ua/Session.antt =====
-- rssip/src/ua/session: the task that serves the requests of a session within its dialog. The
-- events are the calls of the handler, in their order.
pub mod Ended
pub mod Negotiating
pub mod Incoming
pub mod Established
pub mod Accepted
pub mod Calling
pub mod Answered
pub mod LateOffer
pub mod Acked
pub mod CallEstablished
use rssip.Prelude.{ℕ, Bool, true, false, Text, List, [], ◌∷◌, Option, none, some}
use rssip.Message.Method.{SipMethod, invite, bye}
use rssip.Message.StatusCode.{StatusCode}
use rssip.Message.Messages.{
  Response, Transport, IncomingRequest, IncomingMessage, incoming_request, incoming_response,
  OutgoingResponse,
}
use rssip.Transaction.Registry.{Table}
use rssip.Transaction.Server.Respond.{create}
use rssip.Ua.Dialog.{Dialog}
use rssip.Ua.Dialog.Receiving.{Processed, process_incoming_request}
use rssip.Ua.Dialog.Responses.{Settings, final_response}
use rssip.Transaction.Server.Final.{Finished}
use rssip.Error.{Result, ok, err, panic, ◌>>=◌}

pub data SessionEvent : Type 0 where
  reinvite : IncomingRequest → SessionEvent
  terminated : SessionEvent

pub record Handled : Type 0 where
  pub events : List SessionEvent
  pub result : Result (Unit {0})

abbrev called : SessionEvent → Handled → Handled
called e s = record s { events = e ∷ s.events }

abbrev ended_by : Result (Unit {0}) → Handled
ended_by (ok done) = record { events = terminated ∷ []; result = ok tt }
ended_by (err e) = record { events = []; result = err e }
ended_by panic = record { events = []; result = panic }

module _ (encode : Response → Option Text) (deliver : OutgoingResponse → Result Transport) where
  -- The arm of BYE: a transaction of its own, with a channel, answers 200.
  abbrev answer_bye :
      Settings → Dialog → IncomingRequest → ℕ → Table → List Text → Result (Unit {0})
  unfolding create final_response
  answer_bye e d r channel table sent = do
    (s, after) ← create r channel table
    f ← final_response encode deliver e d s StatusCode.ok sent
    f.result

  abbrev by_method : SipMethod → IncomingRequest → Handled → Result (Unit {0}) → Handled
  by_method invite r rest answered = called (reinvite r) rest
  by_method bye r rest answered = ended_by answered
  by_method _ r rest answered = rest

  -- `while let Ok(request)`: what `receive_request` fails with ends the loop.
  abbrev served :
      Result (Unit {0}) → SipMethod → IncomingRequest → Handled → Result (Unit {0}) → Handled
  served (ok done) m r rest answered = by_method m r rest answered
  served (err e) m r rest answered = record { events = []; result = ok tt }
  served panic m r rest answered = record { events = []; result = panic }

  -- `handle_in_dialog_request`, over the messages until the channel closes.
  unfoldable pub handle_in_dialog_request :
      Settings → Dialog → List IncomingMessage → ℕ → Table → List Text → Handled
  unfolding process_incoming_request answer_bye
  handle_in_dialog_request e d [] channel table sent = record { events = []; result = ok tt }
  handle_in_dialog_request e d (incoming_response r ∷ more) channel table sent =
      handle_in_dialog_request e d more channel table sent
  handle_in_dialog_request e d (incoming_request r ∷ more) channel table sent =
      let p = process_incoming_request encode deliver d r sent in
      let rest = handle_in_dialog_request e p.dialog more channel table p.sent in
      served p.result r.request.method r rest (answer_bye e p.dialog r channel table p.sent)
