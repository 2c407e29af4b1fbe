-- ===== src/Ua/Session/Ended.antt =====
-- rssip/src/ua/session/mod.rs, `handle_in_dialog_request`: what the handler is told.
use rssip.Prelude.{ℕ, ◌≡◌, refl, Bool, true, false, Text, List, [], ◌∷◌, Option}
use rssip.Message.Method.{SipMethod, invite, bye}
use rssip.Message.Messages.{
  Response, Transport, IncomingRequest, IncomingMessage, incoming_request, incoming_response,
  OutgoingResponse,
}
use rssip.Transaction.Registry.{Table}
use rssip.Ua.Dialog.{Dialog}
use rssip.Ua.Dialog.Responses.{Settings}
use rssip.Ua.Dialog.Receiving.{process_incoming_request}
use rssip.Ua.Session.{
  SessionEvent, reinvite, terminated, Handled, served, by_method, ended_by, answer_bye,
  handle_in_dialog_request,
}
use rssip.Error.{Result, ok, err, panic}

-- Nothing comes behind the end of the session.
abbrev pub ends_last : List SessionEvent → Bool
ends_last [] = true
ends_last (terminated ∷ []) = true
ends_last (terminated ∷ e ∷ es) = false
ends_last (reinvite r ∷ es) = ends_last es

module _ (encode : Response → Option Text) (deliver : OutgoingResponse → Result Transport) where
  ended_by-last : (m : Result (Unit {0})) → ends_last (ended_by m).events ≡ true
  ended_by-last (ok done) = refl
  ended_by-last (err e) = refl
  ended_by-last panic = refl

  by_method-last :
      (m : SipMethod) (r : IncomingRequest) (rest : Handled) (answered : Result (Unit {0}))
      → ends_last rest.events ≡ true
      → ends_last (by_method encode deliver m r rest answered).events ≡ true
  by_method-last invite r rest answered ih = ih
  by_method-last bye r rest answered ih = ended_by-last answered
  by_method-last _ r rest answered ih = ih

  served-last :
      (p : Result (Unit {0})) (m : SipMethod) (r : IncomingRequest) (rest : Handled)
      (answered : Result (Unit {0}))
      → ends_last rest.events ≡ true
      → ends_last (served encode deliver p m r rest answered).events ≡ true
  served-last (ok done) m r rest answered ih = by_method-last m r rest answered ih
  served-last (err e) m r rest answered ih = refl
  served-last panic m r rest answered ih = refl

  -- The handler of a session is told of its end at most once, and of nothing behind it, whatever
  -- messages the dialog receives.
  pub handle_in_dialog_request-ends_last :
      (e : Settings) (d : Dialog) (messages : List IncomingMessage) (channel : ℕ) (table : Table)
      (sent : List Text)
      → ends_last (handle_in_dialog_request encode deliver e d messages channel table sent).events
        ≡ true
  unfolding handle_in_dialog_request
  handle_in_dialog_request-ends_last e d [] channel table sent = refl
  handle_in_dialog_request-ends_last e d (incoming_response r ∷ more) channel table sent =
      handle_in_dialog_request-ends_last e d more channel table sent
  handle_in_dialog_request-ends_last e d (incoming_request r ∷ more) channel table sent =
      let p = process_incoming_request encode deliver d r sent in
      served-last p.result r.request.method r
        (handle_in_dialog_request encode deliver e p.dialog more channel table p.sent)
        (answer_bye encode deliver e p.dialog r channel table p.sent)
        (handle_in_dialog_request-ends_last e p.dialog more channel table p.sent)
